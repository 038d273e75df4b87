-- ===== src/Logger/Levels.antt =====
-- Which messages a constructed logger writes.
use ekg.Prelude.{
  ◌≡◌, ◌≢◌, refl, sym, ap, ◌∙◌, String, Bool, [], ◌∷◌, ◌++◌, ◌||◌, ◌&&◌, String_key, leb,
  if◌then◌else◌, ◌⊎◌, inl, inr, ==_cases, arith,
}
use ekg.Common.Log.{LogLevel}
use ekg.Common.Outcome.{ok, and_then-eq-ok}
use ekg.Options.{LogConfiguration}
use ekg.Logger.{
  BoostLog, SeverityLevel, rank, BoostLogger, get_level, named_level, string_to_log_level,
  construct, file_step, syslog_step, console_step, finish, set_level, log_message,
}

-- The names that the option's help lists.
abbrev pub name_of : LogLevel → String
name_of LogLevel.error = "error"
name_of LogLevel.info = "info"
name_of LogLevel.debug = "debug"
name_of LogLevel.fatal = "fatal"

-- The level that a text in lower case stands for: any other text stands for "info".
abbrev pub StandsFor : String → LogLevel → Type 0
StandsFor s n = (s ≡ name_of n) ⊎ (((l : LogLevel) → s ≢ name_of l) × (n ≡ LogLevel.info))

unnamed :
    (s : String)
    → s ≢ "error"
    → s ≢ "info"
    → s ≢ "debug"
    → s ≢ "fatal"
    → (l : LogLevel) → s ≢ name_of l
unnamed s n1 n2 n3 n4 LogLevel.error = n1
unnamed s n1 n2 n3 n4 LogLevel.info = n2
unnamed s n1 n2 n3 n4 LogLevel.debug = n3
unnamed s n1 n2 n3 n4 LogLevel.fatal = n4

named_level-StandsFor : (s : String) → StandsFor s (named_level s)
unfolding named_level
named_level-StandsFor s = elim (==_cases s "error") [
  | inl (h, e) ↦ rw h (inl e)
  | inr (m1, n1) ↦ elim (==_cases s "info") [
    | inl (h, e) ↦ rw (m1, h) (inl e)
    | inr (m2, n2) ↦ elim (==_cases s "debug") [
      | inl (h, e) ↦ rw (m1, m2, h) (inl e)
      | inr (m3, n3) ↦ elim (==_cases s "fatal") [
        | inl (h, e) ↦ rw (m1, m2, m3, h) (inl e)
        | inr (m4, n4) ↦ rw (m1, m2, m3, m4) (inr (unnamed s n1 n2 n3 n4, refl))
      ]
    ]
  ]
]

module _ (log : BoostLog) where
  open log use {
    Core, filter, is_enabled, written, set_filter, set_logging_enabled, open_record, push_record,
  }

  -- What the library documents of the filter of its core.
  pub record FilterLaws : Type 0 where
    pub filter-set_filter : (f : SeverityLevel → Bool) (c : Core) → filter (set_filter f c) ≡ f
    pub filter-set_enabled : (b : Bool) (c : Core) → filter (set_logging_enabled b c) ≡ filter c
    pub enabled-set_enabled : (b : Bool) (c : Core) → is_enabled (set_logging_enabled b c) ≡ b
    pub open_record-filter :
        (s : SeverityLevel) (c : Core) → open_record s c ≡ (is_enabled c && filter c s)
    pub written-push_record :
        (s : SeverityLevel) (m : String) (c : Core)
        → written (push_record s m c) ≡ written c ++ (s, m) ∷ []

  module _ (laws : FilterLaws) where
    open laws use {
      filter-set_filter, filter-set_enabled, enabled-set_enabled, open_record-filter,
      written-push_record,
    }

    abbrev pub has_sink : LogConfiguration → Bool
    has_sink conf = conf.log_on_console || conf.log_on_file || conf.log_on_syslog

    open_record-finish :
        (to_lower : String → String) (conf : LogConfiguration) (s : SeverityLevel) (c : Core)
        → open_record s (finish log to_lower conf c) ≡ (
            has_sink conf
            && leb (rank (get_level (string_to_log_level to_lower conf.log_level))) (rank s))
    unfolding finish set_level
    open_record-finish to_lower conf s c =
        open_record-filter s _
        ∙ ap (λ b. b && filter (finish log to_lower conf c) s) (enabled-set_enabled _ _)
        ∙ ap (λ (f : SeverityLevel → Bool). has_sink conf && f s)
            (filter-set_enabled _ _ ∙ filter-set_filter _ c)

    constructed :
        (to_lower : String → String) (conf : LogConfiguration) (c c' : Core) (l : BoostLogger)
        → construct log to_lower conf c ≡ (ok l, c')
        → (d : Core) × (finish log to_lower conf d ≡ c')
    unfolding construct
    constructed to_lower conf c c' l h =
        let (console, c1) = console_step log conf.log_on_console (log.add_common_attributes c) in
        let (file, f, h1) = and_then-eq-ok (file_step log conf.log_on_file conf c1) _ h in
        let c2 = (file_step log conf.log_on_file conf c1).1 in
        let (syslog, g, h2) = and_then-eq-ok (syslog_step log conf.log_on_syslog conf c2) _ h1 in
        (_, ap (λ r. r.1) h2)

    -- The logger that was constructed writes a message exactly when the configuration asks for a
    -- sink and the message's level is at least as severe as the configured one, which is the level
    -- that the text names in any case of its letters, and "info" if it names none.
    pub log_message-construct :
        (to_lower : String → String) (conf : LogConfiguration) (c c' : Core) (l : BoostLogger)
        → construct log to_lower conf c ≡ (ok l, c')
        → (threshold : LogLevel) × StandsFor (to_lower conf.log_level) threshold
          × ((message : String) (level : LogLevel)
              → written (log_message log message level c') ≡ (
                  if has_sink conf && leb (rank (get_level threshold)) (rank (get_level level))
                  then written c' ++ (get_level level, message) ∷ []
                  else written c'))
    unfolding log_message string_to_log_level
    log_message-construct to_lower conf c c' l h =
        let (d, e) = constructed to_lower conf c c' l h in
        (
          string_to_log_level to_lower conf.log_level,
          named_level-StandsFor (to_lower conf.log_level),
          λ message level.
              let opened =
                ap (open_record (get_level level)) (sym e)
                ∙ open_record-finish to_lower conf (get_level level) d in
              ground (arith, opened, written-push_record (get_level level) message c'),
        )
