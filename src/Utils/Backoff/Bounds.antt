-- ===== src/Utils/Backoff/Bounds.antt =====
-- The pauses of SimpleBackoff against its first one, its last one and its jitter.
use amazon_ecs_cni_plugins.Base.{
  ℕ, ◌+◌, ◌%◌, ◌^◌, ◌≤◌, ◌<◌, ◌≡◌, ◌∙◌, ◌⊎◌, ap, refl, arith, inl, inr, Bool-cases, ◌==◌, ltb, true,
  List, [], ◌∷◌, ok,
}
use amazon_ecs_cni_plugins.Utils.Backoff.{
  Floats, Random, add_jitter, SimpleBackoff, new_simple_backoff, next_current, jitter_of, duration,
  reset,
}

-- What IEEE 754 and Go document, as far as it is used. IsLe is the order of float64, which no NaN
-- is in; IsInRange holds of a float64 whose conversion to int64 is defined: it is finite, and its
-- integral part is from -2 ^ 63 to 2 ^ 63 - 1. An int64 is its 64 bits, so that the conversion keeps
-- the order of numbers that are not negative only.
pub record IsIeee (F : Floats) : Type 1 where
  pub IsLe : F.Float → F.Float → Type 0
  pub IsInRange : F.Float → Type 0
  pub le_trans : (a b c : F.Float) → IsLe a b → IsLe b c → IsLe a c
  pub to_int_mono :
      (a b : F.Float) → IsLe (F.from_int 0) a → IsLe a b → IsInRange b → F.to_int a ≤ F.to_int b
  pub in_range_le : (a b : F.Float) → IsLe (F.from_int 0) a → IsLe a b → IsInRange b → IsInRange a
  pub from_int_exact : (n : ℕ) → n < 2 ^ 53 → F.to_int (F.from_int n) ≡ n
  pub from_int_in_range : (n : ℕ) → n < 2 ^ 53 → IsInRange (F.from_int n)
  pub from_int_mono : (m n : ℕ) → m ≤ n → n < 2 ^ 53 → IsLe (F.from_int m) (F.from_int n)
  pub multiply_mono :
      (a b x : F.Float)
      → IsLe (F.from_int 1) a
      → IsLe a b
      → IsInRange b
      → IsLe (F.from_int 0) x
      → IsLe (F.multiply a x) (F.multiply b x)
  pub multiply_nonneg :
      (a x : F.Float)
      → IsLe (F.from_int 1) a
      → IsInRange a
      → IsLe (F.from_int 0) x
      → IsLe (F.from_int 0) (F.multiply a x)
  pub multiply_ge :
      (a x : F.Float) → IsLe (F.from_int 1) a → IsLe (F.from_int 1) x → IsLe a (F.multiply a x)
  pub minimum_either :
      (a b : F.Float)
      → IsLe (F.from_int 1) a
      → IsLe (F.from_int 1) b
      → (F.minimum a b ≡ a) ⊎ ((F.minimum a b ≡ b) × IsLe b a)

-- What math/rand documents of Int63n: a number in the half-open interval from 0 to its argument.
abbrev pub IsBounded : Random → Type 0
IsBounded R = (n : ℕ) (seed : R.Seed) → 1 ≤ n → n < 2 ^ 63 → (R.int63n n seed).0 < n

-- A call of a method.
pub data Call : Type 0 where
  next : Call
  back : Call

module _ (F : Floats) (R : Random) where
  -- The backoff and the generator after a sequence of calls.
  unfoldable pub after : List Call → SimpleBackoff F × R.Seed → SimpleBackoff F × R.Seed
  after [] s = s
  after (next ∷ calls) s = after calls (duration F R s).1
  after (back ∷ calls) (b, seed) = after calls (reset F b, seed)

  module _ (E : IsIeee F) (start max : ℕ) (jitter multiple : F.Float) (positive : 1 ≤ start)
      (ordered : start ≤ max) (exact : max < 2 ^ 53)
      (growing : E.IsLe (F.from_int 1) multiple) where
    -- A backoff of the four parameters whose current pause is in between.
    abbrev at : ℕ → SimpleBackoff F
    at current = record {
      current = current;
      start = start;
      max = max;
      jitter_multiple = jitter;
      multiple = multiple;
    }

    next_current-bounds :
        (c : ℕ)
        → start ≤ c
        → c ≤ max
        → (start ≤ next_current F (at c)) × (next_current F (at c) ≤ max)
    unfolding next_current
    next_current-bounds c lo hi =
        let top = F.from_int max in
        let here = F.from_int c in
        let grown = F.multiply here multiple in
        let above = E.from_int_mono 1 c (omega arith) (omega arith) in
        let larger = E.multiply_ge here multiple above growing in
        let same = E.from_int_exact max exact in
        let same_here = E.from_int_exact c (omega arith) in
        let range = E.from_int_in_range max exact in
        let low_here = E.from_int_mono 0 c (omega arith) (omega arith) in
        let low_grown = E.le_trans (F.from_int 0) here grown low_here larger in
        elim (E.minimum_either top grown (E.from_int_mono 1 max (omega arith) exact)
          (E.le_trans (F.from_int 1) here grown above larger)) [
            | inl e ↦ (
              rw (next_current, e) (omega (arith, same)),
              rw (next_current, e) (omega (arith, same)),
            )
            | inr (e, le) ↦
                let low =
                  E.to_int_mono here grown low_here larger
                    (E.in_range_le grown top low_grown le range) in
                let high = E.to_int_mono grown top low_grown le range in
                (
                  rw (next_current, e) (omega (arith, low, same_here)),
                  rw (next_current, e) (omega (arith, high, same)),
                )
          ]

    after-at :
        (calls : List Call) (c : ℕ) (seed : R.Seed)
        → start ≤ c
        → c ≤ max
        → (d : ℕ) × (start ≤ d) × (d ≤ max) × ((after calls (at c, seed)).0 ≡ at d)
    unfolding after duration reset
    after-at [] c seed lo hi = (c, lo, hi, refl)
    after-at (next ∷ calls) c seed lo hi =
        let (lower, upper) = next_current-bounds c lo hi in
        after-at calls (next_current F (at c)) (add_jitter R c (jitter_of F (at c) c) seed).1 lower
          upper
    after-at (back ∷ calls) c seed lo hi = after-at calls start seed (omega arith) ordered

    -- The jitter of the longest pause.
    abbrev most : ℕ
    most = F.to_int (F.multiply (F.from_int max) jitter)

    jitter_of-le :
        (c : ℕ)
        → start ≤ c
        → c ≤ max
        → E.IsLe (F.from_int 0) jitter
        → E.IsInRange (F.multiply (F.from_int max) jitter)
        → jitter_of F (at c) c ≤ most
    unfolding jitter_of
    jitter_of-le c lo hi added range =
        let above = E.from_int_mono 1 c (omega arith) (omega arith) in
        E.to_int_mono (F.multiply (F.from_int c) jitter) (F.multiply (F.from_int max) jitter)
          (E.multiply_nonneg (F.from_int c) jitter above (E.from_int_in_range c (omega arith))
            added)
          (E.multiply_mono (F.from_int c) (F.from_int max) jitter above
            (E.from_int_mono c max hi exact) (E.from_int_in_range max exact) added)
          range

    module _ (B : IsBounded R) where
      add_jitter-bounds :
          (c j : ℕ) (seed : R.Seed)
          → c + j < 2 ^ 63
          → (d : ℕ) × ((add_jitter R c j seed).0 ≡ ok d) × (c ≤ d) × (d ≤ c + j)
      unfolding add_jitter
      add_jitter-bounds c j seed l = elim (Bool-cases (j == 0)) [
        | inl none_added ↦ (c % 2 ^ 64, rw none_added refl, omega arith, omega arith)
        | inr some_added ↦
            let r = (R.int63n j seed).0 in
            let small : ltb j (2 ^ 63) ≡ true = ground arith in
            let less = B j seed (ground arith) (omega arith) in
            (
              (c + r) % 2 ^ 64,
              rw (some_added, small) refl,
              omega (arith, less),
              omega (arith, less),
            )
      ]

      -- For a first pause of at least one nanosecond that is at most the longest one, which is
      -- below 2 to the 53rd, a factor of at least 1, and a jitter that is not negative and does
      -- not take the longest pause to 2 to the 63rd or more, with the order of floating-point
      -- numbers and a generator of random numbers as documented: after any calls of Duration and
      -- Reset on a new SimpleBackoff, Duration gives a pause that is at least the first one, and
      -- at most the longest one and its jitter.
      pub duration-bounds :
          (calls : List Call) (seed : R.Seed)
          → E.IsLe (F.from_int 0) jitter
          → E.IsInRange (F.multiply (F.from_int max) jitter)
          → max + F.to_int (F.multiply (F.from_int max) jitter) < 2 ^ 63
          → (d : ℕ) × ((duration F R
                (after calls (new_simple_backoff F start max jitter multiple, seed))).0
              ≡ ok d)
            × (start ≤ d)
            × (d ≤ max + F.to_int (F.multiply (F.from_int max) jitter))
      unfolding duration new_simple_backoff
      duration-bounds calls seed added range l =
          let s = after calls (at start, seed) in
          let (c, lo, hi, same) = after-at calls start seed (omega arith) ordered in
          let le = jitter_of-le c lo hi added range in
          let (d, done, low, high) =
            add_jitter-bounds c (jitter_of F (at c) c) s.1 (omega (arith, le)) in
          (
            d,
            ap (λ b. (add_jitter R b.current (jitter_of F b b.current) s.1).0) same ∙ done,
            omega arith,
            omega (arith, le),
          )
