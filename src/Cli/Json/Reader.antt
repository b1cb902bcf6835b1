-- ===== src/Cli/Json/Reader.antt =====
-- A reader of what the encoder writes.
use amazon_ecs_cni_plugins.Base.{
  ℕ, zero, suc, ◌*◌, ◌/◌, ◌%◌, ◌+◌, ◌-◌, ◌<◌, ◌≡◌, ◌∙◌, ap, refl, arith, ◌==◌, leb, ltb,
  if◌then◌else◌, ◌&&◌, Bool-cases, Option-cases, inl, inr, true, false, Text, Option, none, some,
  [], ◌∷◌, ◌++◌,
}
use mathlib.Core.List.{append_assoc}
use amazon_ecs_cni_plugins.Cli.Json.{
  hex_digit, letter, is_coded, escape, ascii, head_of, outside, escape_from, json_string, IsAscii,
}

-- What is expected inside a string: a byte, what stands behind a backslash, or hexadecimal digits.
pub data Mode : Type 0 where
  plain : Mode
  slash : Mode
  hex : ℕ → ℕ → Mode

hex_value : ℕ → Option ℕ
hex_value c =
    if leb 48 c && leb c 57
    then some (c - 48)
    else if leb 97 c && leb c 102
    then some (c - 87)
    else none

-- The byte that a letter behind a backslash stands for.
unescaped : ℕ → Option ℕ
unescaped c =
    if c == 34
    then some 34
    else if c == 92
    then some 92
    else if c == 98
    then some 8
    else if c == 102
    then some 12
    else if c == 110
    then some 10
    else if c == 114
    then some 13
    else if c == 116
    then some 9
    else none

abbrev in_front : ℕ → Option (Text × Text) → Option (Text × Text)
in_front c none = none
in_front c (some (s, rest)) = some (c ∷ s, rest)

-- The string up to its closing quotation mark, and what follows.
read : Mode → Text → Option (Text × Text)
unfolding unescaped hex_value
read mode [] = none
read plain (c ∷ s) =
    let next = in_front c (read plain s) in
    let escaped = read slash s in
    if c == 34 then some ([], s) else if c == 92 then escaped else next
read slash (c ∷ s) =
    let next = read plain s in
    let coded = read (hex 3 0) s in
    if c == 117 then coded else elim (unescaped c) [ none ↦ none | some d ↦ in_front d next ]
read (hex zero v) (c ∷ s) =
    let next = read plain s in
    elim (hex_value c) [ none ↦ none | some d ↦ in_front (v * 16 + d) next ]
read (hex (suc n) v) (c ∷ s) = elim (hex_value c) [
  | none ↦ none
  | some d ↦ read (hex n (v * 16 + d)) s
]

-- A string at the start of a text, and what follows.
pub read_string : Text → Option (Text × Text)
unfolding read
read_string [] = none
read_string (c ∷ s) = let rest = read plain s in if c == 34 then rest else none

hex_value-hex_digit : (d : ℕ) → d < 16 → hex_value (hex_digit d) ≡ some d
unfolding hex_value hex_digit
hex_value-hex_digit d l = ground arith

read-digit :
    (n v c d : ℕ) (s : Text)
    → hex_value c ≡ some d
    → read (hex (suc n) v) (c ∷ s) ≡ read (hex n (v * 16 + d)) s
unfolding read
read-digit n v c d s h = rw (read, h) refl

read-last_digit :
    (v c d : ℕ) (s : Text)
    → hex_value c ≡ some d
    → read (hex 0 v) (c ∷ s) ≡ in_front (v * 16 + d) (read plain s)
unfolding read
read-last_digit v c d s h = rw (read, h) refl

read-coded :
    (c : ℕ) (t : Text)
    → c < 256
    → read (hex 3 0) (48 ∷ 48 ∷ hex_digit (c / 16) ∷ hex_digit (c % 16) ∷ t)
      ≡ in_front c (read plain t)
unfolding hex_value
read-coded c t l =
    let tail = hex_digit (c / 16) ∷ hex_digit (c % 16) ∷ t in
    let whole : (0 * 16 + c / 16) * 16 + c % 16 ≡ c = omega arith in
    read-digit 2 0 48 0 (48 ∷ tail) refl
    ∙ read-digit 1 0 48 0 tail refl
    ∙ read-digit 0 0 (hex_digit (c / 16)) (c / 16) (hex_digit (c % 16) ∷ t)
        (hex_value-hex_digit (c / 16) (omega arith))
    ∙ read-last_digit (0 * 16 + c / 16) (hex_digit (c % 16)) (c % 16) t
        (hex_value-hex_digit (c % 16) (omega arith))
    ∙ ap (λ d. in_front d (read plain t)) whole

letter-unescaped : (c l : ℕ) → letter c ≡ some l → (unescaped l ≡ some c) × ((l == 117) ≡ false)
unfolding letter unescaped
letter-unescaped c l h = (ground arith, ground arith)

letter-none : (c : ℕ) → letter c ≡ none → ((c == 34) ≡ false) × ((c == 92) ≡ false)
unfolding letter
letter-none c h = (ground arith, ground arith)

is_coded-IsByte : (c : ℕ) → is_coded c ≡ true → c < 256
unfolding is_coded
is_coded-IsByte c h = ground arith

-- The reader undoes the escapes.
read-escape : (c : ℕ) (t : Text) → read plain (escape c ++ t) ≡ in_front c (read plain t)
unfolding read escape
read-escape c t = elim (Option-cases (letter c)) [
  | inr (l, q) ↦
      let (known, short) = letter-unescaped c l q in rw (escape, q, read, short, known) refl
  | inl q ↦ elim (Bool-cases (is_coded c)) [
    | inl coded ↦ rw (escape, q, coded) (read-coded c t (is_coded-IsByte c coded))
    | inr bare ↦
        let (no_quote, no_slash) = letter-none c q in
        rw (escape, q, bare, read, no_quote, no_slash) refl
  ]
]

head_of-ascii : (c : ℕ) (s : Text) → c < 128 → head_of c s ≡ ascii
unfolding head_of
head_of-ascii c s l = let small : ltb c 128 ≡ true = ground arith in rw small refl

escape_from-ascii :
    (c : ℕ) (s : Text) → c < 128 → escape_from outside (c ∷ s) ≡ escape c ++ escape_from outside s
unfolding escape_from
escape_from-ascii c s l = rw (escape_from, head_of-ascii c s l) refl

read-escape_from :
    (s t : Text) → IsAscii s → read plain (escape_from outside s ++ (34 ∷ t)) ≡ some (s, t)
unfolding read escape_from
read-escape_from [] t a = refl
read-escape_from (c ∷ s) t (l, a) =
    ap (λ x. read plain (x ++ (34 ∷ t))) (escape_from-ascii c s l)
    ∙ ap (read plain) (append_assoc (escape c) (escape_from outside s) (34 ∷ t))
    ∙ read-escape c (escape_from outside s ++ (34 ∷ t))
    ∙ ap (in_front c) (read-escape_from s t a)

-- The reader undoes the encoding of an ASCII string, whatever follows it.
pub read_string-json_string :
    (s t : Text) → IsAscii s → read_string (json_string s ++ t) ≡ some (s, t)
unfolding read_string json_string
read_string-json_string s t a =
    ap (read plain) (append_assoc (escape_from outside s) (34 ∷ []) t) ∙ read-escape_from s t a
