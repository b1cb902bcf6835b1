-- ===== src/Cli/Flags.antt =====
-- The package flag, for the two Boolean flags that the executables define: flag.Parse.
use amazon_ecs_cni_plugins.Base.{
  ℕ, ◌==◌, if◌then◌else◌, Bool, true, false, Text, text_eq, codes, Option, none, some, List, [],
  ◌∷◌,
}

pub record Flags : Type 0 where
  pub print_version : Bool
  pub print_capabilities : Bool

-- The flags, or the exit code of the process.
pub data Parsed : Type 0 where
  flags : Flags → Parsed
  failed : ℕ → Parsed

-- A flag, with the value behind "=" if there is one; no flag; or bad syntax.
pub data Argument : Type 0 where
  named : Text → Option Text → Argument
  plain : Argument
  bad : Argument

-- The part before the first "=" behind the first byte, and what stands behind it.
split_value : Text → Text × Option Text
split_value [] = ([], none)
split_value (c ∷ s) =
    let (name, value) = split_value s in if c == 61 then ([], some s) else (c ∷ name, value)

-- A name with what may follow it, behind its dashes.
named_argument : Text → Argument
unfolding split_value
named_argument [] = bad
named_argument (c ∷ s) =
    let (name, value) = split_value s in
    if c == 45 then bad else if c == 61 then bad else named (c ∷ name) value

-- One or two dashes and a name; "-" and what does not start with a dash is no flag, and "--" ends
-- the flags.
pub argument : Text → Argument
unfolding named_argument
argument [] = plain
argument (c ∷ []) = plain
argument (c ∷ d ∷ s) =
    if c == 45
    then (if d == 45
        then elim s [ [] ↦ plain | e ∷ t ↦ named_argument (e ∷ t) ]
        else named_argument (d ∷ s))
    else plain

one_of : Text → List Text → Bool
one_of s [] = false
one_of s (t ∷ rest) = let later = one_of s rest in if text_eq s t then true else later

-- strconv.ParseBool
pub parse_bool : Text → Option Bool
unfolding one_of
parse_bool s =
    if one_of s
      (codes "1" ∷ codes "t" ∷ codes "T" ∷ codes "true" ∷ codes "TRUE" ∷ codes "True" ∷ [])
    then some true
    else if one_of s
        (codes "0" ∷ codes "f" ∷ codes "F" ∷ codes "false" ∷ codes "FALSE" ∷ codes "False" ∷ [])
    then some false
    else none

-- The value of a flag: true if it has none.
pub flag_value : Option Text → Option Bool
unfolding parse_bool
flag_value none = some true
flag_value (some text) = parse_bool text

-- flag.Parse, whose errors end the process: with code 0 for the flags of help, else with code 2.
unfoldable pub parse_flags : List Text → Flags → Parsed
unfolding argument flag_value
parse_flags [] f = flags f
parse_flags (s ∷ rest) f = elim (argument s) [
  | plain ↦ flags f
  | bad ↦ failed 2
  | named name value ↦ elim (flag_value value) [
    | none ↦
        if text_eq name (codes "help")
        then failed 0
        else if text_eq name (codes "h")
        then failed 0
        else failed 2
    | some b ↦
        let with_version = parse_flags rest (record f { print_version = b }) in
        let with_capabilities = parse_flags rest (record f { print_capabilities = b }) in
        if text_eq name (codes "version")
        then with_version
        else if text_eq name (codes "capabilities")
        then with_capabilities
        else if text_eq name (codes "help")
        then failed 0
        else if text_eq name (codes "h")
        then failed 0
        else failed 2
  ]
]

-- No flag is set.
abbrev pub no_flags : Flags
no_flags = record { print_version = false; print_capabilities = false }
