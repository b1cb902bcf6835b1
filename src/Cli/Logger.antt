-- ===== src/Cli/Logger.antt =====
-- pkg/logger/logger.go. The environment and the library seelog are parameters.
use amazon_ecs_cni_plugins.Base.{
  if◌then◌else◌, Text, text_eq, codes, to_lower, Option, none, some, List, [], ◌∷◌, Result, ok, err,
  Error,
}
use amazon_ecs_cni_plugins.Cli.Json.{parts}

-- What an executable does to the outside, in the order in which it does it.
pub data Event : Type 0 where
  -- A line on the standard output, and one with an error behind it.
  printed : Text → Event
  printed_error : Text → Error → Event
  -- A text with an error behind it on the standard error output.
  reported : Text → Error → Event
  -- The flag package writes a message and how the flags are used.
  usage : Event
  -- log.ReplaceLogger, with the configuration that the logger was made from.
  logger_replaced : Text → Event
  -- log.Infof, with the argument.
  logged : Text → Event
  -- log.Flush
  flushed : Event
  -- skel.PluginMain
  plugin_called : Event

-- seelog: the levels, LogLevelFromString, String and InfoLvl, and LoggerFromConfigAsString.
pub record Seelog : Type 1 where
  pub Level : Type 0
  pub level_from_string : Text → Option Level
  pub level_text : Level → Text
  pub info_level : Level
  pub logger_from_config : Text → Result (Unit {0})

-- logConfigFormat with its two arguments.
unfoldable pub log_config : Text → Text → Text
log_config level path = parts (
    codes "\n<seelog type=\"asyncloop\" minlevel=\""
    ∷ level
    ∷ codes "\">\n <outputs formatid=\"main\">\n  <rollingfile filename=\""
    ∷ path
    ∷ codes
        "\" type=\"date\" datepattern=\"2006-01-02-15\" archivetype=\"none\" maxrolls=\"24\" />\n"
    ∷ codes " </outputs>\n <formats>\n"
    ∷ codes
        "  <format id=\"main\" format=\"%UTCDate(2006-01-02T15:04:05Z07:00) [%LEVEL] %Msg%n\" />\n"
    ∷ codes " </formats>\n</seelog>\n"
    ∷ [])

module _ (getenv : Text → Text) where
  -- GetLogFileLocation
  unfoldable pub get_log_file_location : Text → Text
  get_log_file_location default =
      let path = getenv (codes "ECS_CNI_LOG_FILE") in if text_eq path [] then default else path

  module _ (seelog : Seelog) where
    -- getLogLevel
    unfoldable pub get_log_level : Text
    get_log_level = elim (seelog.level_from_string (to_lower (getenv (codes "ECS_CNI_LOGLEVEL")))) [
      | some level ↦ seelog.level_text level
      | none ↦ seelog.level_text seelog.info_level
    ]

    -- SetupLogger
    unfoldable pub setup_logger : Text → List Event
    setup_logger path =
        let config = log_config get_log_level path in
        elim (seelog.logger_from_config config) [
          | err e ↦ printed_error (codes "Error setting up logger: ") e ∷ []
          | ok _ ↦ logger_replaced config ∷ []
        ]
