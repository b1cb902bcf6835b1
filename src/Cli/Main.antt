-- ===== src/Cli/Main.antt =====
-- The functions main of plugins/ipam, plugins/eni and plugins/ecs-bridge. skel.PluginMain of the CNI
-- library is a parameter: it returns, panics, or ends the process with an exit code.
pub mod Events
pub mod Outcome
use amazon_ecs_cni_plugins.Base.{
  ℕ, if◌then◌else◌, Bool, true, false, Text, codes, List, [], ◌∷◌, ◌++◌, Result, ok, err, Error,
}
use amazon_ecs_cni_plugins.Cli.Version.{
  Build, version_string, Capability, new_capability, task_eni_capability, capability_string,
}
use amazon_ecs_cni_plugins.Cli.Logger.{
  Event, printed, printed_error, reported, usage, logger_replaced, logged, flushed, plugin_called,
  Seelog, get_log_file_location, setup_logger,
}
use amazon_ecs_cni_plugins.Cli.Flags.{Flags, no_flags, flags, failed, parse_flags}

-- How a process ends: main returns, a panic unwinds main, or os.Exit is called, which runs no deferred
-- call.
pub data Ending : Type 0 where
  returned : Ending
  panicked : Ending
  exited : ℕ → Ending

-- What main takes from outside.
pub record Process : Type 1 where
  pub args : List Text
  pub getenv : Text → Text
  pub seelog : Seelog
  pub build : Build
  pub plugin_main : Ending

-- Println of the answer, or the error.
pub print_answer : Result Text → Result (List Event)
print_answer (err e) = err e
print_answer (ok text) = ok (printed text ∷ [])

-- printVersionInfo of the IPAM and the ENI plugin
unfoldable pub print_version_info : Build → Result (List Event)
unfolding print_answer
print_version_info build = print_answer (version_string build)

-- printVersionInfo of the bridge plugin, which logs the version first.
unfoldable pub print_and_log_version_info : Build → Result (List Event)
print_and_log_version_info build = elim (version_string build) [
  | err e ↦ err e
  | ok text ↦ ok (logged text ∷ printed text ∷ [])
]

-- Print of pkg/capabilities
unfoldable pub print_capability : Capability → Result (List Event)
unfolding print_answer
print_capability c = print_answer (capability_string c)

-- log.Flush, which main defers: it runs when main returns and when a panic unwinds it.
abbrev deferred : Ending → List Event
deferred returned = flushed ∷ []
deferred panicked = flushed ∷ []
deferred (exited code) = []

-- What follows a request for information: its lines, or its error.
unfoldable pub answer : Text → Result (List Event) → List Event × Ending
answer text (err e) = (reported text e ∷ [], exited 1)
answer text (ok events) = (events, returned)

module _ (default_log_path : Text) (version_info : Build → Result (List Event)) (p : Process) where
  -- main behind flag.Parse, up to its deferred call.
  unfoldable pub dispatch : Flags → List Event × Ending
  dispatch f =
      if f.print_version
      then answer (codes "Error getting version string: ") (version_info p.build)
      else if f.print_capabilities
      then answer [] (print_capability (new_capability (task_eni_capability ∷ [])))
      else (plugin_called ∷ [], p.plugin_main)

  unfoldable pub run_main : List Event × Ending
  run_main =
      let logging =
        setup_logger p.getenv p.seelog (get_log_file_location p.getenv default_log_path) in
      elim (parse_flags p.args no_flags) [
        | failed code ↦ (logging ++ (usage ∷ []), exited code)
        | flags f ↦
            let (events, ending) = dispatch f in (logging ++ (events ++ deferred ending), ending)
      ]

-- The three functions main.
unfoldable pub ipam_main : Process → List Event × Ending
ipam_main = run_main (codes "/log/ecs-cni-ipam-plugin.log") print_version_info

unfoldable pub eni_main : Process → List Event × Ending
eni_main = run_main (codes "/log/ecs-cni-eni-plugin.log") print_version_info

unfoldable pub bridge_main : Process → List Event × Ending
bridge_main = run_main (codes "/log/ecs-cni-bridge-plugin.log") print_and_log_version_info
