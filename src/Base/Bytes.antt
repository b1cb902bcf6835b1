-- ===== src/Base/Bytes.antt =====
-- A test of all numbers up to a bound, by evaluation.
use Prim.Native.Nat.{ℕ, zero, suc, ◌≤◌}
use mathlib.Core.Path.{◌≡◌, subst, sym}
use mathlib.Core.Logic.{inl, inr}
use mathlib.Core.Bool.{Bool, true, ◌&&◌}
use native.Mathlib.Omega.{arith}
use amazon_ecs_cni_plugins.Base.Tests.{◌==◌, ==_iff, Bool-cases}

-- A test at all numbers from the given one down to 0.
unfoldable pub down_from : (ℕ → Bool) → ℕ → Bool
down_from test zero = test 0
down_from test (suc top) = down_from test top && test (suc top)

pub down_from-at :
    (test : ℕ → Bool) (top b : ℕ) → b ≤ top → down_from test top ≡ true → test b ≡ true
unfolding down_from
down_from-at test zero b le passed =
    let lowest : 0 ≡ b = omega arith in subst (λ x. test x ≡ true) lowest passed
down_from-at test (suc top) b le passed = elim (Bool-cases (b == suc top)) [
  | inl highest ↦ subst (λ x. test x ≡ true) (sym ((==_iff b (suc top)).0 highest)) (ground arith)
  | inr lower ↦ down_from-at test top b (ground arith) (ground arith)
]
