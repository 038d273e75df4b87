-- ===== src/Tests/Logger.antt =====
-- A small core of the logging library, and loggers on it.
use ekg.Prelude.{
  ℕ, ◌+◌, ◌<◌, ◌≡◌, refl, String, Bool, true, false, some, not, List, [], ◌∷◌, ◌++◌, ◌||◌, ◌&&◌,
  ◌⊎◌, nat_eq, nat_eq_iff, leb, filter, String_key, ◌==◌, if◌then◌else◌, arith,
}
use ekg.Common.Int.{pos, int_mul, overflow}
use ekg.Common.Log.{LogLevel}
use ekg.Common.Outcome.{ok}
use ekg.Options.{LogConfiguration}
use ekg.Logger.{
  BoostLog, SeverityLevel, BoostLogger, rank, get_level, construct, destroy, log_message,
  rotation_size,
}
use ekg.Logger.Levels.{FilterLaws, StandsFor, has_sink, log_message-construct}
use ekg.Logger.Rotation.{Fits, bytes, rotation_size-bytes}
use ekg.Logger.Sinks.{SinkLaws, destroy-construct}

-- A sink listed twice would be found after one removal, so a removal takes all.
abbrev listed : ℕ → List ℕ → Bool
listed t [] = false
listed t (s ∷ ss) = nat_eq s t || listed t ss

abbrev total : List ℕ → ℕ
total [] = 0
total (s ∷ ss) = s + total ss

listed_small : (t : ℕ) (ss : List ℕ) → total ss < t → listed t ss ≡ false
listed_small t [] h = refl
listed_small t (s ∷ ss) h = ground (arith, listed_small t ss, nat_eq_iff s t)

listed-filter :
    (s t : ℕ) (ss : List ℕ)
    → listed t (filter (λ u. not (nat_eq s u)) ss) ≡ (not (nat_eq s t) && listed t ss)
listed-filter s t [] = ground arith
listed-filter s t (u ∷ ss) =
    ground (arith, listed-filter s t ss, nat_eq_iff s u, nat_eq_iff u t, nat_eq_iff s t)

record Core : Type 0 where
  sinks : List ℕ
  passes : SeverityLevel → Bool
  enabled : Bool
  records : List (SeverityLevel × String)

abbrev add_new : Core → ℕ × Core
add_new c = (total c.sinks + 1, record c { sinks = (total c.sinks + 1) ∷ c.sinks })

abbrev log : BoostLog
log = record {
  Core = Core;
  is_registered = λ t c. listed t c.sinks;
  filter = λ c. c.passes;
  is_enabled = λ c. c.enabled;
  written = λ c. c.records;
  add_common_attributes = λ c. c;
  add_console_log = add_new;
  add_file_log = λ n z. add_new;
  make_syslog_sink = λ c. (total c.sinks + 1, c);
  set_target_address = λ s a z c. (ok tt, c);
  add_sink = λ s c. record c { sinks = s ∷ c.sinks };
  remove_sink = λ s c. record c { sinks = filter (λ u. not (nat_eq s u)) c.sinks };
  set_filter = λ f c. record c { passes = f };
  set_logging_enabled = λ b c. record c { enabled = b };
  open_record = λ s c. c.enabled && c.passes s;
  push_record = λ s m c. record c { records = c.records ++ (s, m) ∷ [] };
}

fresh : (ss : List ℕ) → listed (total ss + 1) ss ≡ false
fresh ss = listed_small (total ss + 1) ss (omega arith)

log-SinkLaws : SinkLaws log
log-SinkLaws = record {
  fresh_console = λ c. fresh c.sinks;
  after_console = λ c t. refl;
  fresh_file = λ n z c. fresh c.sinks;
  after_file = λ n z c t. refl;
  fresh_syslog = λ c. fresh c.sinks;
  after_make = λ c t. refl;
  after_address = λ s a z c t. refl;
  after_add_sink = λ s c t. refl;
  after_remove_sink = λ s c t. listed-filter s t c.sinks;
  after_attributes = λ c t. refl;
  after_filter = λ f c t. refl;
  after_enabled = λ b c t. refl;
}

log-FilterLaws : FilterLaws log
log-FilterLaws = record {
  filter-set_filter = λ f c. refl;
  filter-set_enabled = λ b c. refl;
  enabled-set_enabled = λ b c. refl;
  open_record-filter = λ s c. refl;
  written-push_record = λ s m c. refl;
}

abbrev lowered : String → String
lowered s = if s == "ERROR" then "error" else s

abbrev configuration : LogConfiguration
configuration = record {
  log_level = "ERROR";
  log_on_console = true;
  log_on_file = true;
  log_file_name = "ekg.log";
  log_file_max_size_mb = pos 1;
  log_on_syslog = true;
  log_syslog_srv = "localhost";
  log_syslog_srv_port = pos 514;
}

-- Another logger's sink is registered.
abbrev core : Core
core = record { sinks = 3 ∷ []; passes = λ s. true; enabled = true; records = [] }

abbrev built : Core
built = (construct log lowered configuration core).1

abbrev logger : BoostLogger
logger = record { console_sink = some 4; file_sink = some 8; syslog_sink = some 16 }

built_ok : construct log lowered configuration core ≡ (ok logger, built)
unfolding construct rotation_size int_mul
built_ok = refl

destroy_example : listed 3 (destroy log logger built).sinks ≡ true
destroy_example =
    destroy-construct log log-SinkLaws lowered configuration core built logger built_ok 3

log_message_example :
    (threshold : LogLevel) × StandsFor (lowered "ERROR") threshold
    × ((message : String) (level : LogLevel)
        → (log_message log message level built).records ≡ (
            if has_sink log log-FilterLaws configuration
              && leb (rank (get_level threshold)) (rank (get_level level))
            then built.records ++ (get_level level, message) ∷ []
            else built.records))
log_message_example =
    log_message-construct log log-FilterLaws lowered configuration core built logger built_ok

rotation_example :
    (Fits (pos 2048) × (rotation_size (pos 2048) ≡ ok (bytes (pos 2048))))
    ⊎ ((Fits (pos 2048) → ⊥) × (rotation_size (pos 2048) ≡ overflow))
rotation_example = rotation_size-bytes (pos 2048)
