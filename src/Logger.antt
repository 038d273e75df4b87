-- ===== src/Logger.antt =====
-- service/log/impl/BoostLogger.h and BoostLogger.cpp. The core of the logging library, which all
-- loggers of the program share, is a parameter; `to_lower` is std::tolower on each character.
pub mod Sinks
pub mod Levels
pub mod Rotation
use ekg.Prelude.{
  ℕ, ◌≡◌, String, Bool, true, false, Option, none, some, List, [], ◌∷◌, ◌++◌, ◌||◌, ◌&&◌, not,
  nat_eq, leb, ◌==◌, String_key, if◌then◌else◌,
}
use ekg.Common.Int.{ℤ, int_mul}
use ekg.Common.Outcome.{Outcome, ok, throws, undefined, ◌>>=◌, and_then}
use ekg.Common.Log.{LogLevel}
use ekg.Options.{LogConfiguration}

-- logging::trivial::severity_level
pub data SeverityLevel : Type 0 where
  trace debug info warning error fatal : SeverityLevel

-- The order of the enumeration.
abbrev pub rank : SeverityLevel → ℕ
rank trace = 0
rank debug = 1
rank info = 2
rank warning = 3
rank error = 4
rank fatal = 5

-- A sink is the number of its object. `Core.written` lists the records that passed to the sinks.
pub record BoostLog : Type 1 where
  pub Core : Type 0
  pub is_registered : ℕ → Core → Bool
  pub filter : Core → SeverityLevel → Bool
  pub is_enabled : Core → Bool
  pub written : Core → List (SeverityLevel × String)
  pub add_common_attributes : Core → Core
  pub add_console_log : Core → ℕ × Core
  pub add_file_log : String → ℤ → Core → ℕ × Core
  -- A new object, which is not registered yet.
  pub make_syslog_sink : Core → ℕ × Core
  pub set_target_address : ℕ → String → ℤ → Core → Outcome (Unit {0}) × Core
  pub add_sink : ℕ → Core → Core
  pub remove_sink : ℕ → Core → Core
  pub set_filter : (SeverityLevel → Bool) → Core → Core
  pub set_logging_enabled : Bool → Core → Core
  pub open_record : SeverityLevel → Core → Bool
  pub push_record : SeverityLevel → String → Core → Core

unfoldable pub get_level : LogLevel → SeverityLevel
get_level LogLevel.error = SeverityLevel.error
get_level LogLevel.info = SeverityLevel.info
get_level LogLevel.debug = SeverityLevel.debug
get_level LogLevel.fatal = SeverityLevel.fatal

-- The comparisons of `string_to_log_level`.
pub named_level : String → LogLevel
named_level s =
    if s == "error"
    then LogLevel.error
    else if s == "info"
    then LogLevel.info
    else if s == "debug"
    then LogLevel.debug
    else if s == "fatal"
    then LogLevel.fatal
    else LogLevel.info

unfoldable pub string_to_log_level : (String → String) → String → LogLevel
unfolding named_level
string_to_log_level to_lower token = named_level (to_lower token)

-- log_file_max_size_mb * 1024 * 1024
unfoldable pub rotation_size : ℤ → Outcome ℤ
unfolding int_mul
rotation_size mb = int_mul mb 1024 >>= λ kb. int_mul kb 1024

pub record BoostLogger : Type 0 where
  pub console_sink : Option ℕ
  pub file_sink : Option ℕ
  pub syslog_sink : Option ℕ

module _ (log : BoostLog) where
  open log use {
    Core, add_common_attributes, add_console_log, add_file_log, make_syslog_sink,
    set_target_address, add_sink, remove_sink, set_filter, set_logging_enabled, open_record,
    push_record,
  }

  unfoldable pub set_level : LogLevel → Core → Core
  unfolding get_level
  set_level level c = set_filter (λ s. leb (rank (get_level level)) (rank s)) c

  console_step : Bool → Core → Option ℕ × Core
  console_step false c = (none, c)
  console_step true c = (some (add_console_log c).0, (add_console_log c).1)

  file_added : String → Outcome ℤ → Core → Outcome (Option ℕ) × Core
  file_added name (ok size) c =
      (ok (some (add_file_log name size c).0), (add_file_log name size c).1)
  file_added name (throws e) c = (throws e, c)
  file_added name (undefined u) c = (undefined u, c)

  file_step : Bool → LogConfiguration → Core → Outcome (Option ℕ) × Core
  unfolding file_added rotation_size
  file_step false conf c = (ok none, c)
  file_step true conf c = file_added conf.log_file_name (rotation_size conf.log_file_max_size_mb) c

  addressed : ℕ → Outcome (Unit {0}) × Core → Outcome (Option ℕ) × Core
  addressed s (ok u, c) = (ok (some s), add_sink s c)
  addressed s (throws e, c) = (throws e, c)
  addressed s (undefined u, c) = (undefined u, c)

  syslog_step : Bool → LogConfiguration → Core → Outcome (Option ℕ) × Core
  unfolding addressed
  syslog_step false conf c = (ok none, c)
  syslog_step true conf c =
      let (s, c') = make_syslog_sink c in
      addressed s (set_target_address s conf.log_syslog_srv conf.log_syslog_srv_port c')

  -- The end of the constructor.
  finish : (String → String) → LogConfiguration → Core → Core
  unfolding set_level string_to_log_level
  finish to_lower conf c =
      set_logging_enabled (conf.log_on_console || conf.log_on_file || conf.log_on_syslog)
        (set_level (string_to_log_level to_lower conf.log_level) c)

  unfoldable pub construct :
      (String → String) → LogConfiguration → Core → Outcome BoostLogger × Core
  unfolding console_step file_step syslog_step finish
  construct to_lower conf c =
      let (console, c1) = console_step conf.log_on_console (add_common_attributes c) in
      and_then (file_step conf.log_on_file conf c1) (λ file c2.
        and_then (syslog_step conf.log_on_syslog conf c2) (λ syslog c3. (
          ok (record { console_sink = console; file_sink = file; syslog_sink = syslog }),
          finish to_lower conf c3,
        )))

  unfoldable pub remove : Option ℕ → Core → Core
  remove none c = c
  remove (some s) c = remove_sink s c

  -- The destructor.
  unfoldable pub destroy : BoostLogger → Core → Core
  unfolding remove
  destroy l c = remove l.syslog_sink (remove l.file_sink (remove l.console_sink c))

  unfoldable pub log_message : String → LogLevel → Core → Core
  unfolding get_level
  log_message message level c =
      if open_record (get_level level) c then push_record (get_level level) message c else c
