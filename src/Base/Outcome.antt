-- ===== src/Base/Outcome.antt =====
-- Go's (value, error) results. Two error values are told apart by identity in the source only for
-- the sentinels of libkv; all others carry the text of the `errors` call that made them.
use Prim.Native.Nat.{ℕ}
use amazon_ecs_cni_plugins.Base.Strings.{Text}
use Prim.Native.String.{String}
use mathlib.Core.Path.{◌≡◌, refl}
use mathlib.Core.Logic.{◌⊎◌, inl, inr}
use mathlib.Core.Bool.{Bool, true, false}

pub data Error : Type 0 where
  -- store.ErrKeyExists and store.ErrKeyNotFound of libkv.
  key_exists : Error
  key_not_found : Error
  -- An error of a dependency, by its text.
  external : Text → Error
  -- A syscall.Errno.
  errno : ℕ → Error
  -- netlink.LinkNotFoundError, and ip.ErrLinkNotFound of the CNI library.
  link_not_found : Error
  err_link_not_found : Error
  -- errors.New and errors.Errorf, with the constant part of the message.
  message : String → Error
  -- errors.Wrap and errors.Wrapf.
  wrap : Error → String → Error
  -- A run-time panic of Go: an index out of range or a nil dereference.
  panic : Error
  -- No error of the code: the fuel of a modelled loop ran out.
  out_of_fuel : Error

pub data Result {ℓ} (A : Type ℓ) : Type ℓ where
  ok : A → Result A
  err : Error → Result A

-- `if err != nil { return err }`
module _ {ℓ κ} {A : Type ℓ} {B : Type κ} where
  infixl 5 ◌>>=◌
  abbrev pub ◌>>=◌ : Result A → (A → Result B) → Result B
  err e >>= next = err e
  ok a >>= next = next a

module _ {ℓ} {B : Type ℓ} where
  infixl 5 ◌>>◌
  abbrev pub ◌>>◌ : Result (Unit {0}) → Result B → Result B
  first >> second = first >>= λ _. second

-- `err == store.ErrKeyExists` and `err == store.ErrKeyNotFound`.
abbrev pub is_key_exists : Error → Bool
is_key_exists key_exists = true
is_key_exists _ = false

abbrev pub is_key_not_found : Error → Bool
is_key_not_found key_not_found = true
is_key_not_found _ = false

pub Result-cases {ℓ} :
    {A : Type ℓ} (r : Result A) → ((a : A) × (r ≡ ok a)) ⊎ ((e : Error) × (r ≡ err e))
Result-cases (ok a) = inl (a, refl)
Result-cases (err e) = inr (e, refl)
