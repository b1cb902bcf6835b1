-- ===== src/Net/Format/Parse.antt =====
-- net.ParseIP of Go's package net, and strings.Split at one byte.
use amazon_ecs_cni_plugins.Base.{ℕ, ◌+◌, ◌-◌, ◌*◌, ◌/◌, ◌%◌, ◌^◌, Bool, false, ◌&&◌, ◌||◌, not}
use amazon_ecs_cni_plugins.Base.{
  Text, text_eq, ltb, leb, ◌==◌, if◌then◌else◌, Option, none, some, List, [], ◌∷◌, length,
}
use amazon_ecs_cni_plugins.Net.{Ip, nil, v6}

-- strings.Split at one byte.
unfoldable pub split_on : ℕ → Text → List Text
split_on sep [] = [] ∷ []
split_on sep (c ∷ s) =
    let rest = split_on sep s in
    if c == sep then [] ∷ rest else elim rest [ [] ↦ (c ∷ []) ∷ [] | w ∷ ws ↦ (c ∷ w) ∷ ws ]

unfoldable pub digits : ℕ → Text → Option ℕ
digits n [] = some n
digits n (c ∷ s) =
    let rest = digits (n * 10 + (c - 48)) s in if leb 48 c && leb c 57 then rest else none

-- One number of a dotted address: no leading zero, at most 255.
unfoldable pub parse_byte : Text → Option ℕ
unfolding digits
parse_byte [] = none
parse_byte (c ∷ s) =
    if (c == 48) && not (text_eq s [])
    then none
    else elim (digits 0 (c ∷ s)) [ none ↦ none | some n ↦ if leb n 255 then some n else none ]

unfoldable pub dotted : List (Option ℕ) → Option ℕ
dotted (some a ∷ some b ∷ some c ∷ some d ∷ []) = some (((a * 256 + b) * 256 + c) * 256 + d)
dotted _ = none

unfoldable pub parse_bytes : List Text → List (Option ℕ)
parse_bytes [] = []
parse_bytes (w ∷ ws) = parse_byte w ∷ parse_bytes ws

unfoldable pub parse_v4 : Text → Option ℕ
unfolding dotted parse_bytes parse_byte split_on
parse_v4 s = dotted (parse_bytes (split_on b'.' s))

hex_value : ℕ → Option ℕ
hex_value c =
    if leb 48 c && leb c 57
    then some (c - 48)
    else if leb 97 c && leb c 102
    then some (c - 87)
    else if leb 65 c && leb c 70
    then some (c - 55)
    else none

hex_digits : ℕ → Text → Option ℕ
unfolding hex_value
hex_digits n [] = some n
hex_digits n (c ∷ s) = elim (hex_value c) [ none ↦ none | some d ↦ hex_digits (n * 16 + d) s ]

-- One group of at most four digits.
parse_hextet : Text → Option ℕ
unfolding hex_digits
parse_hextet [] = none
parse_hextet (c ∷ s) = if ltb 4 (length (c ∷ s)) then none else hex_digits 0 (c ∷ s)

-- The groups of a part with no empty field; the last field may be a dotted IPv4 address.
parse_groups : List Text → Option (List ℕ)
unfolding parse_hextet parse_v4
parse_groups [] = some []
parse_groups (w ∷ []) = elim (parse_hextet w) [
  | some g ↦ some (g ∷ [])
  | none ↦ elim (parse_v4 w) [ none ↦ none | some n ↦ some (n / 65536 ∷ n % 65536 ∷ []) ]
]
parse_groups (w ∷ x ∷ ws) = elim (parse_hextet w) [
  | none ↦ none
  | some g ↦ elim (parse_groups (x ∷ ws)) [ none ↦ none | some gs ↦ some (g ∷ gs) ]
]

from_groups : ℕ → List ℕ → ℕ
from_groups n [] = n
from_groups n (g ∷ gs) = from_groups (n * 65536 + g) gs

-- The fields before and after the first empty one.
split_empty : List Text → List Text × Option (List Text)
split_empty [] = ([], none)
split_empty ([] ∷ ws) = ([], some ws)
split_empty ((c ∷ w) ∷ ws) = let (before, after) = split_empty ws in ((c ∷ w) ∷ before, after)

-- What stands behind "::", by the fields before it and after its first empty field.
tail_fields : List Text → List Text → Option (List Text)
tail_fields [] ([] ∷ [] ∷ []) = some []
tail_fields [] ([] ∷ w ∷ ws) = some (w ∷ ws)
tail_fields (b ∷ bs) ([] ∷ []) = some []
tail_fields (b ∷ bs) (w ∷ ws) = some (w ∷ ws)
tail_fields _ _ = none

ellipsis : List Text → List Text → Option ℕ
unfolding parse_groups from_groups
ellipsis before after = elim (parse_groups before) [
  | none ↦ none
  | some hs ↦ elim (parse_groups after) [
    | none ↦ none
    | some ts ↦
        if ltb (length hs + length ts) 8
        then some (from_groups 0 hs * 65536 ^ (8 - length hs) + from_groups 0 ts)
        else none
  ]
]

complete : List ℕ → Option ℕ
unfolding from_groups
complete gs = if length gs == 8 then some (from_groups 0 gs) else none

parse_v6 : Text → Option ℕ
unfolding split_empty tail_fields ellipsis complete parse_groups split_on
parse_v6 s =
    let (before, after) = split_empty (split_on b':' s) in
    elim after [
      | none ↦ elim (parse_groups before) [ none ↦ none | some gs ↦ complete gs ]
      | some ws ↦ elim (tail_fields before ws) [ none ↦ none | some rest ↦ ellipsis before rest ]
    ]

unfoldable pub has_byte : ℕ → Text → Bool
has_byte c [] = false
has_byte c (d ∷ s) = c == d || has_byte c s

-- net.ParseIP: sixteen bytes, or nil.
unfoldable pub parse_ip : Text → Ip
unfolding parse_v4 parse_v6 has_byte
parse_ip s =
    if has_byte b':' s
    then elim (parse_v6 s) [ none ↦ nil | some n ↦ v6 n ]
    else elim (parse_v4 s) [ none ↦ nil | some n ↦ v6 (0xffff * 2 ^ 32 + n) ]
