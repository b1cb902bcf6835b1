-- ===== src/Base/Powers.antt =====
-- Powers of two, and blocks of numbers of that size.
use Prim.Native.Nat.{ℕ, zero, suc, ◌+◌, ◌-◌, ◌*◌, ◌/◌, ◌%◌, ◌^◌, ◌≤◌, ◌<◌}
use mathlib.Core.Path.{◌≡◌}
use native.Mathlib.Omega.{arith}
use Prim.Native.Nat.add
use native.Mathlib.Nat.{pow-suc}

pub pow-pos : (n : ℕ) → 1 ≤ 2 ^ n
pow-pos zero = omega arith
pow-pos (suc n) = rw pow-suc (omega (arith, pow-pos n))

pub pow-ge-four : (n : ℕ) → 2 ≤ n → 4 ≤ 2 ^ n
pow-ge-four zero h = absurd (omega arith)
pow-ge-four (suc zero) h = absurd (omega arith)
pow-ge-four (suc (suc n)) h = rw (pow-suc, pow-suc) (omega (arith, pow-pos n))

pub two-pow-add : (a b : ℕ) → 2 ^ (a + b) ≡ 2 ^ a * 2 ^ b
two-pow-add zero b = rw add.zero (omega arith)
two-pow-add (suc a) b = rw (add.suc, pow-suc, two-pow-add a b, pow-suc) (grind arith)

-- The block of `size` numbers around `n` lies below `size * count` if `n` does.
pub block-le : (n size count : ℕ) → 1 ≤ size → n < size * count → n - n % size + size ≤ size * count
block-le n size count p h = grind arith

pub block-div : (n size o : ℕ) → o < size → (n - n % size + o) / size ≡ n / size
block-div n size o h = grind arith
