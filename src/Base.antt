-- ===== src/Base.antt =====
-- The names that the other modules share: the libraries', passed on, the Boolean tests on native
-- numbers, Go strings as lists of bytes, and Go's (value, error) results.
mod Tests
mod Lists
mod Strings
pub mod Powers
pub mod Bytes
pub mod Exec
mod Outcome
pub use Tests.*
pub use Lists.*
unfoldable pub use Strings.*
pub use Outcome.*
pub use Prim.Native.Nat.{ℕ, zero, suc, ◌+◌, ◌-◌, ◌*◌, ◌/◌, ◌%◌, ◌^◌, ◌≤◌, ◌<◌, min}
pub use Prim.Native.String.{String}
pub use mathlib.Core.Path.{◌≡◌, refl, sym, ap, subst, fun_ext, ◌∙◌}
pub use mathlib.Core.Logic.{◌≢◌, ◌↔◌, ◌⊎◌, inl, inr}
pub use mathlib.Core.Bool.{Bool, true, false, ◌&&◌, ◌||◌, not}
pub use mathlib.Core.Option.{Option, none, some}
pub use mathlib.Core.List.{List, [], ◌∷◌, ◌++◌, map}
pub use native.Mathlib.Omega.{arith}
