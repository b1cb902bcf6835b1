-- ===== src/Cli/Main/Outcome.antt =====
-- What the three functions main do: when the plugin runs, when the log is flushed, what is printed.
use amazon_ecs_cni_plugins.Base.{
  ℕ, ◌≡◌, ◌↔◌, ◌≢◌, ◌⊎◌, ◌∙◌, sym, ap, subst, refl, inl, inr, Bool-cases, true, false, not, some,
  Text, text_eq, codes, trim_space, List, [], ◌∷◌, ◌++◌, Result, ok,
}
use mathlib.Core.List.{append_assoc}
use amazon_ecs_cni_plugins.Cli.Json.{IsAscii}
use amazon_ecs_cni_plugins.Cli.Version.{
  Build, version_string, capability_string, marshal_capability, new_capability, task_eni_capability,
}
use amazon_ecs_cni_plugins.Cli.Version.Roundtrip.{read_version, read_version-version_string}
use amazon_ecs_cni_plugins.Cli.Logger.{
  Event, printed, logged, flushed, plugin_called, setup_logger, usage, get_log_file_location,
}
use amazon_ecs_cni_plugins.Cli.Flags.{Flags, no_flags, flags, failed, parse_flags}
use amazon_ecs_cni_plugins.Cli.Main.{
  Ending, returned, panicked, exited, Process, dispatch, run_main, ipam_main, eni_main, bridge_main,
  print_version_info, print_and_log_version_info, print_answer, print_capability, answer,
}
use amazon_ecs_cni_plugins.Cli.Main.Events.{
  any, is_plugin_called, is_flushed, IsQuiet, setup_logger-IsQuiet, any-behind, IsOrderly, neither,
  both, Ending-cases, Parsed-cases, Prints,
}

pub data Executable : Type 0 where
  ipam_plugin : Executable
  eni_plugin : Executable
  bridge_plugin : Executable

abbrev pub main_of : Executable → Process → List Event × Ending
main_of ipam_plugin = ipam_main
main_of eni_plugin = eni_main
main_of bridge_plugin = bridge_main

module _ (path : Text) (info : Build → Result (List Event)) (p : Process) (events : List Event)
    (answered : info p.build ≡ ok events) (quiet : IsQuiet events) where
  abbrev logging : List Event
  logging = setup_logger p.getenv p.seelog (get_log_file_location p.getenv path)

  logging-IsQuiet : IsQuiet logging
  logging-IsQuiet = setup_logger-IsQuiet p.getenv p.seelog (get_log_file_location p.getenv path)

  exits : (code : ℕ) → (exited code ≡ returned) ⊎ (exited code ≡ panicked) → ⊥
  exits code (inl h) = cc
  exits code (inr h) = cc

  run_main-failed :
      (code : ℕ) → parse_flags p.args no_flags ≡ failed code → IsOrderly p (run_main path info p)
  unfolding run_main any
  run_main-failed code q =
      rw (q, run_main)
        (
          neither (any-behind is_plugin_called logging (usage ∷ []) logging-IsQuiet.0) (λ h. cc),
          neither (any-behind is_flushed logging (usage ∷ []) logging-IsQuiet.1) (exits code),
        )

  -- Behind flags that ask for information.
  informed-IsOrderly :
      (lines : List Event)
      → IsQuiet lines
      → parse_flags p.args no_flags ≢ flags no_flags
      → IsOrderly p (logging ++ (lines ++ (flushed ∷ [])), returned)
  unfolding any
  informed-IsOrderly lines (no_plugin, no_flush) asked = (
    neither
        (any-behind is_plugin_called logging (lines ++ (flushed ∷ [])) logging-IsQuiet.0
          ∙ any-behind is_plugin_called lines (flushed ∷ []) no_plugin)
        asked,
    both
        (any-behind is_flushed logging (lines ++ (flushed ∷ [])) logging-IsQuiet.1
          ∙ any-behind is_flushed lines (flushed ∷ []) no_flush)
        (inl refl),
  )

  run_main-called :
      parse_flags p.args no_flags ≡ flags no_flags → IsOrderly p (run_main path info p)
  unfolding run_main dispatch any
  run_main-called q = elim (Ending-cases p.plugin_main) [
    | inl (inl back) ↦
        rw (q, run_main, back)
          (
            both
                (any-behind is_plugin_called logging (plugin_called ∷ flushed ∷ [])
                  logging-IsQuiet.0)
                refl,
            both (any-behind is_flushed logging (plugin_called ∷ flushed ∷ []) logging-IsQuiet.1)
                (inl refl),
          )
    | inl (inr unwound) ↦
        rw (q, run_main, unwound)
          (
            both
                (any-behind is_plugin_called logging (plugin_called ∷ flushed ∷ [])
                  logging-IsQuiet.0)
                refl,
            both (any-behind is_flushed logging (plugin_called ∷ flushed ∷ []) logging-IsQuiet.1)
                (inr refl),
          )
    | inr (code, gone) ↦
        rw (q, run_main, gone)
          (
            both (any-behind is_plugin_called logging (plugin_called ∷ []) logging-IsQuiet.0) refl,
            neither (any-behind is_flushed logging (plugin_called ∷ []) logging-IsQuiet.1)
                (exits code),
          )
  ]

  run_main-version :
      (f : Flags)
      → parse_flags p.args no_flags ≡ flags f
      → f.print_version ≡ true
      → run_main path info p ≡ (logging ++ (events ++ (flushed ∷ [])), returned)
  unfolding run_main dispatch answer
  run_main-version f q asked = rw (q, run_main, asked, answered) refl

  run_main-capabilities :
      (f : Flags)
      → parse_flags p.args no_flags ≡ flags f
      → f.print_version ≡ false
      → f.print_capabilities ≡ true
      → (line : Text) × (run_main path info p
          ≡ (logging ++ ((printed line ∷ []) ++ (flushed ∷ [])), returned))
  unfolding run_main dispatch answer print_capability print_answer capability_string
  run_main-capabilities f q no_version asked = (
    marshal_capability (new_capability (task_eni_capability ∷ [])),
    rw (q, run_main, no_version, asked) refl,
  )

  run_main-Prints :
      (f : Flags) (text : Text) (first rest : List Event)
      → parse_flags p.args no_flags ≡ flags f
      → f.print_version ≡ true
      → events ≡ first ++ (printed text ∷ rest)
      → ((run_main path info p).1 ≡ returned) × Prints text (run_main path info p).0
  run_main-Prints f text first rest q asked same =
      let whole = run_main-version f q asked in
      (
        ap (λ r. r.1) whole,
        (
          logging ++ first,
          rest ++ (flushed ∷ []),
          ap (λ r. r.0) whole
              ∙ ap (λ e. logging ++ (e ++ (flushed ∷ []))) same
              ∙ ap (λ e. logging ++ e) (append_assoc first (printed text ∷ rest) (flushed ∷ []))
              ∙ sym (append_assoc logging first (printed text ∷ (rest ++ (flushed ∷ [])))),
        ),
      )

  asked-version : (f : Flags) → f.print_version ≡ true → flags f ≢ flags no_flags
  asked-version f asked e = cc

  asked-capabilities : (f : Flags) → f.print_capabilities ≡ true → flags f ≢ flags no_flags
  asked-capabilities f asked e = cc

  run_main-flags :
      (f : Flags) → parse_flags p.args no_flags ≡ flags f → IsOrderly p (run_main path info p)
  unfolding any
  run_main-flags f q = elim (Bool-cases f.print_version) [
    | inl asked ↦
        subst (IsOrderly p) (sym (run_main-version f q asked))
          (informed-IsOrderly events quiet (λ h. asked-version f asked (sym q ∙ h)))
    | inr no_version ↦ elim (Bool-cases f.print_capabilities) [
      | inl asked ↦
          let (line, e) = run_main-capabilities f q no_version asked in
          subst (IsOrderly p) (sym e) (
            informed-IsOrderly (printed line ∷ []) (refl, refl)
              (λ h. asked-capabilities f asked (sym q ∙ h)))
      | inr no_capabilities ↦
          let same : f ≡ no_flags =
            λ i. record { print_version = no_version i; print_capabilities = no_capabilities i } in
          run_main-called (q ∙ ap flags same)
    ]
  ]

  run_main-IsOrderly : IsOrderly p (run_main path info p)
  run_main-IsOrderly = elim (Parsed-cases (parse_flags p.args no_flags)) [
    | inl (f, q) ↦ run_main-flags f q
    | inr (code, q) ↦ run_main-failed code q
  ]

-- Each of the three functions main calls skel.PluginMain exactly if the command line is read
-- without error and sets neither the flag of the version nor that of the capabilities, and flushes
-- the log exactly if it returns or a panic unwinds it, that is, if nothing ends the process by
-- os.Exit.
pub main_of_iff :
    (x : Executable) (p : Process)
    → ((any is_plugin_called (main_of x p).0 ≡ true)
        ↔ (parse_flags p.args no_flags ≡ flags no_flags))
      × ((any is_flushed (main_of x p).0 ≡ true)
          ↔ (((main_of x p).1 ≡ returned) ⊎ ((main_of x p).1 ≡ panicked)))
unfolding ipam_main eni_main bridge_main print_version_info print_and_log_version_info print_answer
    version_string any
main_of_iff ipam_plugin p =
    run_main-IsOrderly (codes "/log/ecs-cni-ipam-plugin.log") print_version_info p _ refl
      (refl, refl)
main_of_iff eni_plugin p =
    run_main-IsOrderly (codes "/log/ecs-cni-eni-plugin.log") print_version_info p _ refl
      (refl, refl)
main_of_iff bridge_plugin p =
    run_main-IsOrderly (codes "/log/ecs-cni-bridge-plugin.log") print_and_log_version_info p _ refl
      (refl, refl)

same_text : {s t : Text} → ok s ≡ ok t → s ≡ t
same_text e = cc

-- If the version and the hash of the build are ASCII, and the command line is read without error
-- and sets the flag of the version, each of the three functions main returns, and prints a text
-- from which a reader of JSON gets back the version and the hash of the build, and that it is
-- dirty unless the output of git, with the spaces around it removed, was the digit 0.
pub main_of-Prints :
    (x : Executable) (p : Process) (f : Flags)
    → IsAscii p.build.version
    → IsAscii p.build.git_short_hash
    → parse_flags p.args no_flags ≡ flags f
    → f.print_version ≡ true
    → ((main_of x p).1 ≡ returned)
      × ((text : Text) × (Prints text (main_of x p).0)
          × (read_version text
              ≡ some (record {
                version = p.build.version;
                dirty = not (text_eq (trim_space p.build.git_porcelain) (codes "0"));
                git_short_hash = p.build.git_short_hash;
              })))
unfolding ipam_main eni_main bridge_main print_version_info print_and_log_version_info print_answer
    version_string any
main_of-Prints ipam_plugin p f a b q asked =
    let (text, e, back) = read_version-version_string p.build a b in
    let (ends, prints) =
      run_main-Prints (codes "/log/ecs-cni-ipam-plugin.log") print_version_info p _ refl
        (refl, refl) f text [] [] q asked (ap (λ t. printed t ∷ []) (same_text e)) in
    (ends, (text, prints, back))
main_of-Prints eni_plugin p f a b q asked =
    let (text, e, back) = read_version-version_string p.build a b in
    let (ends, prints) =
      run_main-Prints (codes "/log/ecs-cni-eni-plugin.log") print_version_info p _ refl (refl, refl)
        f text [] [] q asked (ap (λ t. printed t ∷ []) (same_text e)) in
    (ends, (text, prints, back))
main_of-Prints bridge_plugin p f a b q asked =
    let (text, e, back) = read_version-version_string p.build a b in
    let (ends, prints) =
      run_main-Prints (codes "/log/ecs-cni-bridge-plugin.log") print_and_log_version_info p _ refl
        (refl, refl) f text (logged text ∷ []) [] q asked
        (ap (λ t. logged t ∷ printed t ∷ []) (same_text e)) in
    (ends, (text, prints, back))
