-- ===== src/Cli/Json.antt =====
-- encoding/json, as far as pkg/version and pkg/capabilities use it: json.Marshal of strings, of
-- Booleans and of structs and slices of them.
pub mod Reader
use amazon_ecs_cni_plugins.Base.{
  ℕ, zero, suc, ◌/◌, ◌%◌, ◌+◌, ◌-◌, ◌<◌, ◌==◌, ltb, leb, ◌&&◌, All, if◌then◌else◌, ◌||◌, Bool, true,
  false, Text, codes, Option, none, some, List, [], ◌∷◌, ◌++◌,
}

pub hex_digit : ℕ → ℕ
hex_digit d = if ltb d 10 then 48 + d else 87 + d

-- The letter that stands for a byte behind a backslash.
pub letter : ℕ → Option ℕ
letter c =
    if c == 34
    then some 34
    else if c == 92
    then some 92
    else if c == 8
    then some 98
    else if c == 12
    then some 102
    else if c == 10
    then some 110
    else if c == 13
    then some 114
    else if c == 9
    then some 116
    else none

-- Control characters, and <, > and &.
pub is_coded : ℕ → Bool
is_coded c = ltb c 32 || (c == 60) || (c == 62) || (c == 38)

-- appendString, for one byte.
pub escape : ℕ → Text
unfolding hex_digit letter is_coded
escape c = elim (letter c) [
  | some l ↦ 92 ∷ l ∷ []
  | none ↦
      if is_coded c
      then 92 ∷ 117 ∷ 48 ∷ 48 ∷ hex_digit (c / 16) ∷ hex_digit (c % 16) ∷ []
      else c ∷ []
]

within : ℕ → ℕ → ℕ → Bool
within low high c = leb low c && leb c high

-- A byte that continues a sequence of UTF-8.
continues : ℕ → Bool
unfolding within
continues = within 0x80 0xbf

-- The first two bytes of a sequence of three, and of one of four.
starts_three : ℕ → ℕ → Bool
unfolding within continues
starts_three c d =
    if c == 0xe0
    then within 0xa0 0xbf d
    else if c == 0xed
    then within 0x80 0x9f d
    else within 0xe1 0xef c && continues d

starts_four : ℕ → ℕ → Bool
unfolding within continues
starts_four c d =
    if c == 0xf0
    then within 0x90 0xbf d
    else if c == 0xf4
    then within 0x80 0x8f d
    else within 0xf1 0xf3 c && continues d

-- What stands at the start of a text: an ASCII byte, U+2028 or U+2029 by its last digit, a rune by
-- the number of its bytes less two, or a byte that no rune of UTF-8 starts with.
pub data Head : Type 0 where
  ascii : Head
  separator : ℕ → Head
  rune : ℕ → Head
  invalid : Head

-- Runes of two bytes, and of more, by the bytes behind the first.
head_of_four : ℕ → Text → Head
unfolding starts_four continues
head_of_four c (d ∷ e ∷ f ∷ s) =
    if starts_four c d && continues e && continues f then rune 2 else invalid
head_of_four c _ = invalid

head_of_three : ℕ → Text → Head
unfolding starts_three continues head_of_four
head_of_three c (d ∷ e ∷ s) =
    if (c == 0xe2) && (d == 0x80) && ((e == 0xa8) || (e == 0xa9))
    then separator (e - 160)
    else if starts_three c d && continues e
    then rune 1
    else head_of_four c (d ∷ e ∷ s)
head_of_three c _ = invalid

head_of_two : ℕ → Text → Head
unfolding within continues head_of_three
head_of_two c [] = invalid
head_of_two c (d ∷ s) =
    if within 0xc2 0xdf c && continues d then rune 0 else head_of_three c (d ∷ s)

-- utf8.DecodeRuneInString, by the first byte and what follows it.
pub head_of : ℕ → Text → Head
unfolding head_of_two
head_of c s = if ltb c 128 then ascii else head_of_two c s

-- Where the encoder is: at the start of a rune, or in one, which it copies or skips, with the
-- number of bytes behind the next one.
pub data Place : Type 0 where
  outside : Place
  copying : ℕ → Place
  skipping : ℕ → Place

-- appendString: a byte that is not UTF-8 becomes U+FFFD.
pub escape_from : Place → Text → Text
unfolding escape head_of
escape_from place [] = []
escape_from outside (c ∷ s) = elim (head_of c s) [
  | ascii ↦ escape c ++ escape_from outside s
  | separator d ↦ codes "\\u202" ++ ((48 + d) ∷ escape_from (skipping 1) s)
  | rune k ↦ c ∷ escape_from (copying k) s
  | invalid ↦ codes "\\ufffd" ++ escape_from outside s
]
escape_from (copying zero) (c ∷ s) = c ∷ escape_from outside s
escape_from (copying (suc k)) (c ∷ s) = c ∷ escape_from (copying k) s
escape_from (skipping zero) (c ∷ s) = escape_from outside s
escape_from (skipping (suc k)) (c ∷ s) = escape_from (skipping k) s

unfoldable pub json_string : Text → Text
unfolding escape_from
json_string s = 34 ∷ (escape_from outside s ++ (34 ∷ []))

-- A text of ASCII bytes.
abbrev pub IsAscii : Text → Type 0
IsAscii = All (λ c. c < 128)

abbrev pub json_bool : Bool → Text
json_bool true = codes "true"
json_bool false = codes "false"

-- The elements of a slice, with a comma between them.
unfoldable pub json_strings : List Text → Text
unfolding json_string
json_strings [] = []
json_strings (s ∷ []) = json_string s
json_strings (s ∷ t ∷ rest) = json_string s ++ (codes "," ++ json_strings (t ∷ rest))

-- The parts of a text, one behind the other.
abbrev pub parts : List Text → Text
parts [] = []
parts (s ∷ rest) = s ++ parts rest
