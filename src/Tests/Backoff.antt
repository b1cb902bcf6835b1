-- ===== src/Tests/Backoff.antt =====
-- The pauses of SimpleBackoff from 3 to 20, doubled, with the jitter of a whole pause.
use amazon_ecs_cni_plugins.Base.{
  ℕ, zero, suc, ap, ◌+◌, ◌-◌, ◌*◌, ◌^◌, ◌≤◌, ◌<◌, ◌≡◌, ◌⊎◌, inl, inr, min, leb, Bool-cases, arith,
  refl, List, [], ◌∷◌, ok,
}
use native.Mathlib.Nat.{mul-le-mul, mul-le-mul_right}
use amazon_ecs_cni_plugins.Utils.Backoff.{Floats, Random, new_simple_backoff, duration}
use amazon_ecs_cni_plugins.Utils.Backoff.Bounds.{
  IsIeee, IsBounded, Call, next, back, after, duration-bounds,
}

-- Natural numbers with an infinity and with what is no number, which is the product of zero and
-- the infinity.
data Number : Type 0 where
  finite : ℕ → Number
  infinity : Number
  undefined : Number

abbrev truncated : Number → ℕ
truncated (finite n) = n
truncated infinity = 2 ^ 63
truncated undefined = 2 ^ 63

abbrev product : Number → Number → Number
product (finite m) (finite n) = finite (m * n)
product (finite zero) infinity = undefined
product (finite (suc m)) infinity = infinity
product infinity (finite zero) = undefined
product infinity (finite (suc n)) = infinity
product infinity infinity = infinity
product undefined x = undefined
product (finite m) undefined = undefined
product infinity undefined = undefined

abbrev least : Number → Number → Number
least (finite m) (finite n) = finite (min m n)
least (finite m) infinity = finite m
least infinity (finite n) = finite n
least infinity infinity = infinity
least undefined x = undefined
least (finite m) undefined = undefined
least infinity undefined = undefined

abbrev Below : Number → Number → Type 0
Below (finite m) (finite n) = m ≤ n
Below (finite m) infinity = Unit
Below infinity (finite n) = 1 ≤ 0
Below infinity infinity = Unit
Below undefined x = 1 ≤ 0
Below (finite m) undefined = 1 ≤ 0
Below infinity undefined = 1 ≤ 0

abbrev IsConvertible : Number → Type 0
IsConvertible (finite n) = n < 2 ^ 63
IsConvertible infinity = 1 ≤ 0
IsConvertible undefined = 1 ≤ 0

abbrev numbers : Floats
numbers = record {
  Float = Number;
  from_int = finite;
  to_int = truncated;
  multiply = product;
  minimum = least;
}

Below-trans : (a b c : Number) → Below a b → Below b c → Below a c
Below-trans (finite l) (finite m) (finite n) h k = omega arith
Below-trans (finite l) (finite m) infinity h k = tt
Below-trans (finite l) infinity infinity h k = tt
Below-trans infinity infinity infinity h k = tt
Below-trans (finite l) infinity (finite n) h k = absurd (omega arith)
Below-trans (finite l) infinity undefined h k = absurd (omega arith)
Below-trans (finite l) (finite m) undefined h k = absurd (omega arith)
Below-trans (finite l) undefined c h k = absurd (omega arith)
Below-trans infinity (finite m) c h k = absurd (omega arith)
Below-trans infinity infinity (finite n) h k = absurd (omega arith)
Below-trans infinity infinity undefined h k = absurd (omega arith)
Below-trans infinity undefined c h k = absurd (omega arith)
Below-trans undefined b c h k = absurd (omega arith)

truncated_mono : (a b : Number) → Below a b → IsConvertible b → truncated a ≤ truncated b
truncated_mono (finite m) (finite n) h r = h
truncated_mono infinity (finite n) h r = absurd (omega arith)
truncated_mono undefined (finite n) h r = absurd (omega arith)
truncated_mono a infinity h r = absurd (omega arith)
truncated_mono a undefined h r = absurd (omega arith)

IsConvertible-Below : (a b : Number) → Below a b → IsConvertible b → IsConvertible a
IsConvertible-Below (finite m) (finite n) h r = omega arith
IsConvertible-Below infinity (finite n) h r = absurd (omega arith)
IsConvertible-Below undefined (finite n) h r = absurd (omega arith)
IsConvertible-Below a infinity h r = absurd (omega arith)
IsConvertible-Below a undefined h r = absurd (omega arith)

product_mono :
    (a b x : Number)
    → Below (finite 1) a
    → Below a b
    → IsConvertible b
    → Below (finite 0) x
    → Below (product a x) (product b x)
product_mono (finite (suc m)) (finite (suc n)) (finite k) p h r q = mul-le-mul_right k h
product_mono (finite (suc m)) (finite (suc n)) infinity p h r q = tt
product_mono (finite (suc m)) (finite (suc n)) undefined p h r q = absurd (omega arith)
product_mono (finite zero) b x p h r q = absurd (omega arith)
product_mono (finite (suc m)) (finite zero) x p h r q = absurd (omega arith)
product_mono infinity (finite n) x p h r q = absurd (omega arith)
product_mono undefined b x p h r q = absurd (omega arith)
product_mono a infinity x p h r q = absurd (omega arith)
product_mono a undefined x p h r q = absurd (omega arith)

product_nonneg :
    (a x : Number)
    → Below (finite 1) a
    → IsConvertible a
    → Below (finite 0) x
    → Below (finite 0) (product a x)
product_nonneg (finite m) (finite n) p r q = omega arith
product_nonneg (finite zero) infinity p r q = absurd (omega arith)
product_nonneg (finite (suc m)) infinity p r q = tt
product_nonneg (finite m) undefined p r q = absurd (omega arith)
product_nonneg infinity x p r q = absurd (omega arith)
product_nonneg undefined x p r q = absurd (omega arith)

product_ge : (a x : Number) → Below (finite 1) a → Below (finite 1) x → Below a (product a x)
product_ge (finite m) (finite n) p q =
    let larger : m * 1 ≤ m * n = mul-le-mul (omega arith) q in omega (arith, larger)
product_ge (finite zero) infinity p q = absurd (omega arith)
product_ge (finite (suc m)) infinity p q = tt
product_ge (finite m) undefined p q = absurd (omega arith)
product_ge infinity (finite zero) p q = absurd (omega arith)
product_ge infinity (finite (suc n)) p q = tt
product_ge infinity infinity p q = tt
product_ge infinity undefined p q = absurd (omega arith)
product_ge undefined x p q = absurd (omega arith)

min-either : (a b : ℕ) → (min a b ≡ a) ⊎ ((min a b ≡ b) × (b ≤ a))
min-either a b = elim (Bool-cases (leb a b)) [
  | inl le ↦ inl (ground arith)
  | inr gt ↦ inr (ground arith, ground arith)
]

least-either :
    (a b : Number)
    → Below (finite 1) a
    → Below (finite 1) b
    → (least a b ≡ a) ⊎ ((least a b ≡ b) × Below b a)
least-either (finite m) (finite n) p q = elim (min-either m n) [
  | inl e ↦ inl (ap finite e)
  | inr (e, le) ↦ inr (ap finite e, le)
]
least-either (finite m) infinity p q = inl refl
least-either (finite m) undefined p q = absurd (omega arith)
least-either infinity (finite n) p q = inr (refl, tt)
least-either infinity infinity p q = inl refl
least-either infinity undefined p q = absurd (omega arith)
least-either undefined b p q = absurd (omega arith)

abbrev numbers-IsIeee : IsIeee numbers
numbers-IsIeee = record {
  IsLe = Below;
  IsInRange = IsConvertible;
  le_trans = Below-trans;
  to_int_mono = λ a b p h r. truncated_mono a b h r;
  in_range_le = λ a b p h r. IsConvertible-Below a b h r;
  from_int_exact = λ n h. refl;
  from_int_in_range = λ n h. omega arith;
  from_int_mono = λ m n h r. h;
  multiply_mono = product_mono;
  multiply_nonneg = product_nonneg;
  multiply_ge = product_ge;
  minimum_either = least-either;
}

-- A generator that counts, and gives the largest number.
abbrev largest : Random
largest = record { Seed = ℕ; int63n = λ n seed. (n - 1, seed + 1) }

largest-IsBounded : IsBounded largest
largest-IsBounded n seed p l = omega arith

abbrev calls : List Call
calls = next ∷ next ∷ next ∷ next ∷ back ∷ next ∷ []

duration-bounds_example :
    (d : ℕ) × ((duration numbers largest
        (after numbers largest calls (new_simple_backoff numbers 3 20 (finite 1) (finite 2), 0))).0
      ≡ ok d)
    × (3 ≤ d)
    × (d ≤ 20 + 20 * 1)
duration-bounds_example =
    duration-bounds numbers largest numbers-IsIeee 3 20 (finite 1) (finite 2) (omega arith)
      (omega arith) (omega arith) (omega arith) largest-IsBounded calls 0 (omega arith)
      (omega arith) (omega arith)
