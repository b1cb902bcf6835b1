-- ===== src/Cli/Version/Roundtrip.antt =====
-- What a reader of JSON gets back from the version string.
use amazon_ecs_cni_plugins.Base.{
  ◌≡◌, refl, arith, ◌==◌, if◌then◌else◌, Bool, true, false, not, Text, text_eq, codes, trim_space,
  Option, none, some, [], ◌∷◌, ◌++◌, ok,
}
use amazon_ecs_cni_plugins.Cli.Json.{json_bool, IsAscii}
use amazon_ecs_cni_plugins.Cli.Json.Reader.{read_string, read_string-json_string}
use amazon_ecs_cni_plugins.Cli.Version.{
  VersionInfo, Build, version_info, marshal_version, version_string,
}

-- The text behind an expected beginning.
behind : Text → Text → Option Text
behind [] t = some t
behind (c ∷ s) [] = none
behind (c ∷ s) (d ∷ t) = let rest = behind s t in if c == d then rest else none

behind-append : (s t : Text) → behind s (s ++ t) ≡ some t
unfolding behind
behind-append [] t = refl
behind-append (c ∷ s) t = ground (arith, behind-append s t)

module _ {A B : Type 0} where
  abbrev and_then : Option A → (A → Option B) → Option B
  and_then none f = none
  and_then (some a) f = f a

read_bool : Text → Option (Bool × Text)
unfolding behind
read_bool t = elim (behind (codes "true") t) [
  | some rest ↦ some (true, rest)
  | none ↦ and_then (behind (codes "false") t) λ rest. some (false, rest)
]

-- A reader of the three fields of the version, in the order in which they are written.
unfoldable pub read_version : Text → Option VersionInfo
unfolding behind read_bool
read_version t = and_then (behind (codes "{\"version\":") t) λ t1.
    and_then (read_string t1) λ (version, t2). and_then (behind (codes ",\"dirty\":") t2) λ t3.
      and_then (read_bool t3) λ (dirty, t4). and_then (behind (codes ",\"gitShortHash\":") t4) λ t5.
        and_then (read_string t5) λ (hash, t6).
          and_then (behind (codes "}") t6)
            λ t7. some (record { version = version; dirty = dirty; git_short_hash = hash })

read_bool-json_bool : (b : Bool) (t : Text) → read_bool (json_bool b ++ t) ≡ some (b, t)
unfolding read_bool behind
read_bool-json_bool true t = refl
read_bool-json_bool false t = refl

read_version-marshal_version :
    (info : VersionInfo)
    → IsAscii info.version
    → IsAscii info.git_short_hash
    → read_version (marshal_version info) ≡ some info
unfolding read_version marshal_version
read_version-marshal_version info a b =
    rw
      (
        read_string-json_string info.version _ a,
        read_bool-json_bool info.dirty _,
        read_string-json_string info.git_short_hash _ b,
      )
      refl

-- If the version and the hash of the build are ASCII, String of pkg/version succeeds, and a reader of its text gets back the version and the hash that
-- the build was made with, and that it is dirty unless the output of git, with the spaces around it
-- removed, was the digit 0.
pub read_version-version_string :
    (build : Build)
    → IsAscii build.version
    → IsAscii build.git_short_hash
    → (text : Text) × (version_string build ≡ ok text)
      × (read_version text
          ≡ some (record {
            version = build.version;
            dirty = not (text_eq (trim_space build.git_porcelain) (codes "0"));
            git_short_hash = build.git_short_hash;
          }))
unfolding version_string version_info
read_version-version_string build a b = (
  marshal_version (version_info build),
  refl,
  read_version-marshal_version (version_info build) a b,
)
