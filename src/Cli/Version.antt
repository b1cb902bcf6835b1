-- ===== src/Cli/Version.antt =====
-- pkg/version/version.go and pkg/capabilities/capabilities.go. The variables that the linker sets are
-- parameters. json.Marshal of these types does not fail, so the branches on its error are not taken.
pub mod Roundtrip
use amazon_ecs_cni_plugins.Base.{
  if◌then◌else◌, Bool, true, false, not, Text, text_eq, codes, trim_space, List, [], ◌∷◌, ◌++◌,
  Result, ok,
}
use amazon_ecs_cni_plugins.Cli.Json.{json_string, json_bool, json_strings, parts}

-- versionInfo
pub record VersionInfo : Type 0 where
  pub version : Text
  pub dirty : Bool
  pub git_short_hash : Text

-- What the linker sets: Version, GitPorcelain and GitShortHash.
pub record Build : Type 0 where
  pub version : Text
  pub git_porcelain : Text
  pub git_short_hash : Text

unfoldable pub version_info : Build → VersionInfo
version_info build = record {
  version = build.version;
  dirty = not (text_eq (trim_space build.git_porcelain) (codes "0"));
  git_short_hash = build.git_short_hash;
}

pub marshal_version : VersionInfo → Text
marshal_version info = parts (
    codes "{\"version\":"
    ∷ json_string info.version
    ∷ codes ",\"dirty\":"
    ∷ json_bool info.dirty
    ∷ codes ",\"gitShortHash\":"
    ∷ json_string info.git_short_hash
    ∷ codes "}"
    ∷ [])

-- String of pkg/version
unfoldable pub version_string : Build → Result Text
unfolding version_info marshal_version
version_string build = ok (marshal_version (version_info build))

-- Capability
pub record Capability : Type 0 where
  pub capabilities : List Text

-- New
abbrev pub new_capability : List Text → Capability
new_capability capabilities = record { capabilities = capabilities }

-- TaskENICapability
abbrev pub task_eni_capability : Text
task_eni_capability = codes "awsvpc-network-mode"

-- The tag of the field has omitempty.
pub marshal_capability : Capability → Text
marshal_capability c = elim c.capabilities [
  | [] ↦ codes "{}"
  | s ∷ rest ↦ parts (codes "{\"capabilities\":[" ∷ json_strings (s ∷ rest) ∷ codes "]}" ∷ [])
]

-- String of pkg/capabilities
unfoldable pub capability_string : Capability → Result Text
unfolding marshal_capability
capability_string c = ok (marshal_capability c)
