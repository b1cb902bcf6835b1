-- ===== src/Base/Exec.antt =====
-- Methods that change a state and may fail. What was written before an error stays written, so the
-- state comes back beside the error too.
use mathlib.Core.Path.{◌≡◌, refl}
use Prim.Native.String.{String}
use amazon_ecs_cni_plugins.Base.Outcome.{Error, wrap, Result, ok, err}

abbrev pub Exec : Type 0 → Type 0 → Type 0
Exec S A = S → Result A × S

module _ {S A : Type 0} where
  abbrev pub pure : A → Exec S A
  pure a s = (ok a, s)

  abbrev pub raise : Error → Exec S A
  raise e s = (err e, s)

  abbrev pub lift : Result A → Exec S A
  lift r s = (r, s)

  -- `if err != nil { return errors.Wrap(err, note) }`
  abbrev pub annotate : String → Result A × S → Result A × S
  annotate note (ok a, s) = (ok a, s)
  annotate note (err e, s) = (err (wrap e note), s)

module _ {S A B : Type 0} where
  infixl 5 ◌>>=◌ ◌>>◌
  abbrev pub continue : Result A × S → (A → Exec S B) → Result B × S
  continue (ok a, s) f = f a s
  continue (err e, s) f = (err e, s)

  abbrev pub ◌>>=◌ : Exec S A → (A → Exec S B) → Exec S B
  ◌>>=◌ m f s = continue (m s) f

  abbrev pub ◌>>◌ : Exec S A → Exec S B → Exec S B
  m >> k = m >>= λ _. k

module _ {S A : Type 0} where
  infixl 7 ◌note◌
  abbrev pub ◌note◌ : Exec S A → String → Exec S A
  ◌note◌ m text s = annotate text (m s)

module _ {S A B : Type 0} where
  -- A success of two steps is a success of the first and of the second.
  pub continue-ok :
      (r : Result A × S) (f : A → Exec S B) (b : B)
      → (continue r f).0 ≡ ok b
      → (a : A) × (r.0 ≡ ok a) × (continue r f ≡ f a r.1)
  continue-ok (ok a, s) f b h = (a, refl, refl)
  continue-ok (err e, s) f b h = cc

module _ {S A : Type 0} where
  pub annotate-ok :
      (text : String) (r : Result A × S) (a : A)
      → (annotate text r).0 ≡ ok a
      → (r.0 ≡ ok a) × (annotate text r ≡ r)
  annotate-ok text (ok b, s) a h = (h, refl)
  annotate-ok text (err e, s) a h = cc
