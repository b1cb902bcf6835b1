-- ===== src/Base/Strings.antt =====
-- Go strings as lists of bytes: equality, prefix test, and literals.
use Prim.Native.Nat.{ℕ, ◌+◌}
use Prim.Native.Char.{code}
use Prim.Native.String.{String}
use mathlib.Core.Path.{◌≡◌, refl}
use mathlib.Core.Logic.{◌↔◌}
use mathlib.Core.Bool.{Bool, true, false, ◌&&◌, ◌||◌}
use mathlib.Core.List.{List, [], ◌∷◌, ◌++◌}
use native.Mathlib.Omega.{arith}
use amazon_ecs_cni_plugins.Base.Tests.{◌==◌, leb, if◌then◌else◌}

abbrev pub Text : Type 0
Text = List ℕ

-- The bytes of an ASCII literal.
abbrev pub codes : String → Text
codes String.[] = []
codes (String.◌∷◌ c s) = code c ∷ codes s

-- `s == t` on Go strings.
unfoldable pub text_eq : Text → Text → Bool
text_eq [] [] = true
text_eq [] (c ∷ t) = false
text_eq (b ∷ s) [] = false
text_eq (b ∷ s) (c ∷ t) = b == c && text_eq s t

pub text_eq_sound : (s t : Text) → text_eq s t ≡ true → s ≡ t
unfolding text_eq
text_eq_sound [] [] h = refl
text_eq_sound [] (c ∷ t) h = cc
text_eq_sound (b ∷ s) [] h = cc
text_eq_sound (b ∷ s) (c ∷ t) h = ground (arith, text_eq_sound s t)

pub text_eq_refl : (s : Text) → text_eq s s ≡ true
unfolding text_eq
text_eq_refl [] = refl
text_eq_refl (b ∷ s) = ground (arith, text_eq_refl s)

pub text_eq_iff : (s t : Text) → (text_eq s t ≡ true) ↔ (s ≡ t)
text_eq_iff s t = (text_eq_sound s t, λ e. cc (e, text_eq_refl s))

-- `strings.HasPrefix t s`, with the prefix first.
unfoldable pub has_prefix : Text → Text → Bool
has_prefix [] t = true
has_prefix (b ∷ s) [] = false
has_prefix (b ∷ s) (c ∷ t) = b == c && has_prefix s t

pub has_prefix-append : (s t : Text) → has_prefix s (s ++ t) ≡ true
unfolding has_prefix
has_prefix-append [] t = refl
has_prefix-append (b ∷ s) t = ground (arith, has_prefix-append s t)

-- `strings.Contains t s`, with the part first.
unfoldable pub is_infix : Text → Text → Bool
is_infix s [] = has_prefix s []
is_infix s (c ∷ t) = has_prefix s (c ∷ t) || is_infix s t

-- A space of strings.TrimSpace (ASCII space only).
abbrev pub is_space : ℕ → Bool
is_space c = (c == 32) || (leb 9 c && leb c 13)

-- Is the text empty after strings.TrimSpace?
unfoldable pub is_blank : Text → Bool
is_blank [] = true
is_blank (c ∷ s) = is_space c && is_blank s

trim_left : Text → Text
trim_left [] = []
trim_left (c ∷ s) = let rest = trim_left s in if is_space c then rest else c ∷ s

trim_right : Text → Text
unfolding is_blank
trim_right [] = []
trim_right (c ∷ s) = let rest = trim_right s in if is_blank (c ∷ s) then [] else c ∷ rest

-- strings.TrimSpace
unfoldable pub trim_space : Text → Text
unfolding trim_left trim_right
trim_space s = trim_right (trim_left s)

-- strings.ToLower (ASCII letters only).
unfoldable pub to_lower : Text → Text
to_lower [] = []
to_lower (c ∷ s) = (if leb 65 c && leb c 90 then c + 32 else c) ∷ to_lower s
