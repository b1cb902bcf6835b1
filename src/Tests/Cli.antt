-- ===== src/Tests/Cli.antt =====
-- The command line of the executables, at a build and a library seelog that knows two levels.
use amazon_ecs_cni_plugins.Base.{
  ◌≡◌, ◌↔◌, ◌⊎◌, arith, refl, Bool, true, false, not, Text, text_eq, codes, trim_space, none, some,
  List, [], ◌∷◌, ok, if◌then◌else◌,
}
use amazon_ecs_cni_plugins.Cli.Version.{Build}
use amazon_ecs_cni_plugins.Cli.Version.Roundtrip.{read_version}
use amazon_ecs_cni_plugins.Cli.Logger.{Seelog}
use amazon_ecs_cni_plugins.Cli.Flags.{no_flags, flags, failed, parse_flags}
use amazon_ecs_cni_plugins.Cli.Main.{returned, panicked, Process}
use amazon_ecs_cni_plugins.Cli.Json.{IsAscii}
use amazon_ecs_cni_plugins.Cli.Main.Events.{any, is_plugin_called, is_flushed, Prints}
use amazon_ecs_cni_plugins.Cli.Main.Outcome.{
  ipam_plugin, bridge_plugin, main_of, main_of_iff, main_of-Prints,
}

abbrev release : Build
release = record {
  version = codes "0.1.0";
  git_porcelain = codes " 0\n";
  git_short_hash = codes "abcd";
}

abbrev seelog : Seelog
seelog = record {
  Level = Bool;
  level_from_string = λ s. if text_eq s (codes "debug") then some true else none;
  level_text = λ level. if level then codes "debug" else codes "info";
  info_level = false;
  logger_from_config = λ config. ok tt;
}

abbrev process : List Text → Process
process args = record {
  args = args;
  getenv = λ name. [];
  seelog = seelog;
  build = release;
  plugin_main = returned;
}

release-IsClean : not (text_eq (trim_space release.git_porcelain) (codes "0")) ≡ false
unfolding trim_space text_eq
release-IsClean = refl

abbrev arguments : List Text
arguments = codes "--capabilities" ∷ codes "-version=T" ∷ codes "x" ∷ codes "-y" ∷ []

both_set :
    parse_flags arguments no_flags
    ≡ flags (record { print_version = true; print_capabilities = true })
unfolding parse_flags text_eq
both_set = refl

unset : parse_flags (codes "-version=0" ∷ []) no_flags ≡ flags no_flags
unfolding parse_flags text_eq
unset = refl

helped : parse_flags (codes "-h" ∷ []) no_flags ≡ failed 0
unfolding parse_flags text_eq
helped = refl

unknown : parse_flags (codes "-version" ∷ codes "---" ∷ []) no_flags ≡ failed 2
unfolding parse_flags text_eq
unknown = refl

main_of_iff_example :
    ((any is_plugin_called (main_of ipam_plugin (process [])).0 ≡ true)
      ↔ (parse_flags [] no_flags ≡ flags no_flags))
    × ((any is_flushed (main_of ipam_plugin (process [])).0 ≡ true) ↔ (
        ((main_of ipam_plugin (process [])).1 ≡ returned)
        ⊎ ((main_of ipam_plugin (process [])).1 ≡ panicked)))
main_of_iff_example = main_of_iff ipam_plugin (process [])

release-IsAscii : IsAscii release.version × IsAscii release.git_short_hash
release-IsAscii = (
  (omega arith, (omega arith, (omega arith, (omega arith, (omega arith, tt))))),
  (omega arith, (omega arith, (omega arith, (omega arith, tt)))),
)

main_of-Prints_example :
    ((main_of bridge_plugin (process arguments)).1 ≡ returned)
    × ((text : Text) × (Prints text (main_of bridge_plugin (process arguments)).0)
        × (read_version text
            ≡ some (record {
              version = codes "0.1.0";
              dirty = not (text_eq (trim_space (codes " 0\n")) (codes "0"));
              git_short_hash = codes "abcd";
            })))
main_of-Prints_example =
    main_of-Prints bridge_plugin (process arguments)
      (record { print_version = true; print_capabilities = true }) release-IsAscii.0
      release-IsAscii.1 both_set refl
