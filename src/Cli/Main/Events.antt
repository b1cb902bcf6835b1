-- ===== src/Cli/Main/Events.antt =====
-- The events of the functions main: which of them there are, and when they are orderly.
use amazon_ecs_cni_plugins.Base.{
  ℕ, ◌≡◌, ◌↔◌, ◌⊎◌, ◌≢◌, ◌∙◌, sym, refl, arith, inl, inr, Result-cases, ◌||◌, Bool, true, false,
  Text, List, [], ◌∷◌, ◌++◌,
}
use amazon_ecs_cni_plugins.Cli.Logger.{
  Event, printed, flushed, plugin_called, Seelog, setup_logger, log_config, get_log_level,
}
use amazon_ecs_cni_plugins.Cli.Flags.{Flags, Parsed, no_flags, flags, failed, parse_flags}
use amazon_ecs_cni_plugins.Cli.Main.{Ending, returned, panicked, exited, Process}

-- Is there such an event?
unfoldable pub any : (Event → Bool) → List Event → Bool
any test [] = false
any test (e ∷ events) = test e || any test events

abbrev pub is_plugin_called : Event → Bool
is_plugin_called plugin_called = true
is_plugin_called _ = false

abbrev pub is_flushed : Event → Bool
is_flushed flushed = true
is_flushed _ = false

pub any-append :
    (test : Event → Bool) (a b : List Event) → any test (a ++ b) ≡ (any test a || any test b)
unfolding any
any-append test [] b = refl
any-append test (e ∷ a) b = ground (arith, any-append test a b)

-- Neither of the two is among the events.
abbrev pub IsQuiet : List Event → Type 0
IsQuiet events = (any is_plugin_called events ≡ false) × (any is_flushed events ≡ false)

pub setup_logger-IsQuiet :
    (getenv : Text → Text) (seelog : Seelog) (path : Text)
    → IsQuiet (setup_logger getenv seelog path)
unfolding setup_logger any
setup_logger-IsQuiet getenv seelog path =
    let config = log_config (get_log_level getenv seelog) path in
    elim (Result-cases (seelog.logger_from_config config)) [
      | inl (u, q) ↦ (rw (setup_logger, q) refl, rw (setup_logger, q) refl)
      | inr (e, q) ↦ (rw (setup_logger, q) refl, rw (setup_logger, q) refl)
    ]

-- Behind a quiet beginning, a test holds of the whole if it holds of the rest.
pub any-behind :
    (test : Event → Bool) (a b : List Event) → any test a ≡ false → any test (a ++ b) ≡ any test b
any-behind test a b quiet = any-append test a b ∙ rw quiet refl

-- What is claimed of a run: when the plugin is called, and when the log is flushed.
abbrev pub IsOrderly : Process → List Event × Ending → Type 0
IsOrderly p (events, ending) =
    ((any is_plugin_called events ≡ true) ↔ (parse_flags p.args no_flags ≡ flags no_flags))
    × ((any is_flushed events ≡ true) ↔ ((ending ≡ returned) ⊎ (ending ≡ panicked)))

pub Parsed-cases : (r : Parsed) → ((f : Flags) × (r ≡ flags f)) ⊎ ((code : ℕ) × (r ≡ failed code))
Parsed-cases (flags f) = inl (f, refl)
Parsed-cases (failed code) = inr (code, refl)

-- The line is among those on the standard output.
abbrev pub Prints : Text → List Event → Type 0
Prints text events =
    (before : List Event) × (after : List Event) × (events ≡ before ++ (printed text ∷ after))

pub different : false ≢ true
different e = cc

pub neither : {P : Type 0} {b : Bool} → b ≡ false → (P → ⊥) → (b ≡ true) ↔ P
neither f n = (λ h. absurd (different (sym f ∙ h)), λ p. absurd (n p))

pub both : {P : Type 0} {b : Bool} → b ≡ true → P → (b ≡ true) ↔ P
both t p = (λ h. p, λ q. t)

pub Ending-cases :
    (e : Ending) → ((e ≡ returned) ⊎ (e ≡ panicked)) ⊎ ((code : ℕ) × (e ≡ exited code))
Ending-cases returned = inl (inl refl)
Ending-cases panicked = inl (inr refl)
Ending-cases (exited code) = inr (code, refl)
