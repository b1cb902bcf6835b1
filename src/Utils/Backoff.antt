-- ===== src/Utils/Backoff.antt =====
-- pkg/utils/backoff.go. An int64 is its 64 bits, as a number below 2 ^ 64. The type float64 and
-- math/rand are parameters.
pub mod Bounds
use amazon_ecs_cni_plugins.Base.{ℕ, ◌+◌, ◌%◌, ◌^◌, ◌==◌, ltb, if◌then◌else◌, panic, Result, ok, err}
use amazon_ecs_cni_plugins.Base.Exec.{Exec}

-- float64, with its conversions from and to int64, its product, and math.Min.
pub record Floats : Type 1 where
  pub Float : Type 0
  pub from_int : ℕ → Float
  pub to_int : Float → ℕ
  pub multiply : Float → Float → Float
  pub minimum : Float → Float → Float

-- rand.Int63n, for a positive argument, with the state of the generator.
pub record Random : Type 1 where
  pub Seed : Type 0
  pub int63n : ℕ → Seed → ℕ × Seed

-- AddJitter; Int63n panics at a negative argument.
unfoldable pub add_jitter : (R : Random) → ℕ → ℕ → Exec R.Seed ℕ
add_jitter R duration jitter seed =
    if jitter == 0
    then (ok (duration % 2 ^ 64), seed)
    else if ltb jitter (2 ^ 63)
    then (let (r, next) = R.int63n jitter seed in (ok ((duration + r) % 2 ^ 64), next))
    else (err panic, seed)

-- SimpleBackoff
pub record SimpleBackoff (F : Floats) : Type 0 where
  pub current : ℕ
  pub start : ℕ
  pub max : ℕ
  pub jitter_multiple : F.Float
  pub multiple : F.Float

module _ (F : Floats) where
  -- NewSimpleBackoff
  unfoldable pub new_simple_backoff : ℕ → ℕ → F.Float → F.Float → SimpleBackoff F
  new_simple_backoff min max jitter_multiple multiple = record {
    current = min;
    start = min;
    max = max;
    jitter_multiple = jitter_multiple;
    multiple = multiple;
  }

  -- What Duration makes of the field current.
  unfoldable pub next_current : SimpleBackoff F → ℕ
  next_current b =
      F.to_int (F.minimum (F.from_int b.max) (F.multiply (F.from_int b.current) b.multiple))

  -- The bound of the jitter that Duration adds to a pause.
  unfoldable pub jitter_of : SimpleBackoff F → ℕ → ℕ
  jitter_of b pause = F.to_int (F.multiply (F.from_int pause) b.jitter_multiple)

  -- Duration
  unfoldable pub duration : (R : Random) → Exec (SimpleBackoff F × R.Seed) ℕ
  duration R (b, seed) =
      let (r, next) = add_jitter R b.current (jitter_of b b.current) seed in
      (r, (record b { current = next_current b }, next))

  -- Reset
  unfoldable pub reset : SimpleBackoff F → SimpleBackoff F
  reset b = record b { current = b.start }
