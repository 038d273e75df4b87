-- ===== src/Logger/Sinks.antt =====
-- The sinks that a logger adds to the shared core, and takes away.
use ekg.Prelude.{
  ℕ, ◌≡◌, refl, sym, ap, ◌∙◌, subst, String, Bool, true, false, Option, none, some, ◌||◌, ◌&&◌, not,
  nat_eq, nat_eq_iff, arith,
}
use ekg.Common.Int.{ℤ}
use ekg.Common.Outcome.{Outcome, ok, throws, undefined, and_then-eq-ok}
use ekg.Options.{LogConfiguration}
use ekg.Logger.{
  BoostLog, SeverityLevel, BoostLogger, construct, console_step, file_step, file_added, syslog_step,
  addressed, finish, set_level, remove, destroy,
}

module _ (log : BoostLog) where
  open log use {
    Core, is_registered, add_common_attributes, add_console_log, add_file_log, make_syslog_sink,
    set_target_address, add_sink, remove_sink, set_filter, set_logging_enabled,
  }

  -- What the library documents of the sinks of its core.
  pub record SinkLaws : Type 0 where
    pub fresh_console : (c : Core) → is_registered (add_console_log c).0 c ≡ false
    pub after_console :
        (c : Core) (t : ℕ)
        → is_registered t (add_console_log c).1
          ≡ (nat_eq (add_console_log c).0 t || is_registered t c)
    pub fresh_file :
        (n : String) (z : ℤ) (c : Core) → is_registered (add_file_log n z c).0 c ≡ false
    pub after_file :
        (n : String) (z : ℤ) (c : Core) (t : ℕ)
        → is_registered t (add_file_log n z c).1
          ≡ (nat_eq (add_file_log n z c).0 t || is_registered t c)
    pub fresh_syslog : (c : Core) → is_registered (make_syslog_sink c).0 c ≡ false
    pub after_make : (c : Core) (t : ℕ) → is_registered t (make_syslog_sink c).1 ≡ is_registered t c
    pub after_address :
        (s : ℕ) (a : String) (z : ℤ) (c : Core) (t : ℕ)
        → is_registered t (set_target_address s a z c).1 ≡ is_registered t c
    pub after_add_sink :
        (s : ℕ) (c : Core) (t : ℕ)
        → is_registered t (add_sink s c) ≡ (nat_eq s t || is_registered t c)
    pub after_remove_sink :
        (s : ℕ) (c : Core) (t : ℕ)
        → is_registered t (remove_sink s c) ≡ (not (nat_eq s t) && is_registered t c)
    pub after_attributes :
        (c : Core) (t : ℕ) → is_registered t (add_common_attributes c) ≡ is_registered t c
    pub after_filter :
        (f : SeverityLevel → Bool) (c : Core) (t : ℕ)
        → is_registered t (set_filter f c) ≡ is_registered t c
    pub after_enabled :
        (b : Bool) (c : Core) (t : ℕ)
        → is_registered t (set_logging_enabled b c) ≡ is_registered t c

abbrev pub names : Option ℕ → ℕ → Bool
names none t = false
names (some s) t = nat_eq s t

-- Three sinks that are added, each new, and then removed.
added_and_removed :
    (a b c r : Bool)
    → (a ≡ true → r ≡ false)
    → (b ≡ true → (a || r) ≡ false)
    → (c ≡ true → (b || (a || r)) ≡ false)
    → (not c && (not b && (not a && (c || (b || (a || r)))))) ≡ r
added_and_removed true b c r h k l = ground (arith, h refl)
added_and_removed false true c r h k l = ground (arith, k refl)
added_and_removed false false true r h k l = ground (arith, l refl)
added_and_removed false false false r h k l = refl

module _ (log : BoostLog) (laws : SinkLaws log) where
  open log use {Core, is_registered}
  open laws use {
    fresh_console, after_console, fresh_file, after_file, fresh_syslog, after_make, after_address,
    after_add_sink, after_remove_sink, after_attributes, after_filter, after_enabled,
  }

  -- The step adds at most this sink, which is new.
  abbrev Adds : Option ℕ → Core → Core → Type 0
  Adds o c c' =
      (t : ℕ)
      → (is_registered t c' ≡ (names o t || is_registered t c))
        × (names o t ≡ true → is_registered t c ≡ false)

  new :
      (s t : ℕ) (c : Core)
      → is_registered s c ≡ false
      → nat_eq s t ≡ true
      → is_registered t c ≡ false
  new s t c h e = subst (λ u. is_registered u c ≡ false) ((nat_eq_iff s t).0 e) h

  console_step-Adds :
      (b : Bool) (c : Core) → Adds (console_step log b c).0 c (console_step log b c).1
  unfolding console_step
  console_step-Adds false c t = (refl, λ e. cc)
  console_step-Adds true c t = (after_console c t, new _ t c (fresh_console c))

  file_added-Adds :
      (n : String) (z : Outcome ℤ) (c : Core) (o : Option ℕ)
      → (file_added log n z c).0 ≡ ok o
      → Adds o c (file_added log n z c).1
  unfolding file_added
  file_added-Adds n (ok z) c none h t = cc
  file_added-Adds n (ok z) c (some s) h t =
      let e : (log.add_file_log n z c).0 ≡ s = cc in
      (
        after_file n z c t ∙ ap (λ u. nat_eq u t || is_registered t c) e,
        new s t c (subst (λ u. is_registered u c ≡ false) e (fresh_file n z c)),
      )
  file_added-Adds n (throws x) c o h t = cc
  file_added-Adds n (undefined u) c o h t = cc

  file_step-Adds :
      (b : Bool) (conf : LogConfiguration) (c : Core) (o : Option ℕ)
      → (file_step log b conf c).0 ≡ ok o
      → Adds o c (file_step log b conf c).1
  unfolding file_step
  file_step-Adds true conf c o h t = file_added-Adds _ _ c o h t
  file_step-Adds false conf c none h t = (refl, λ e. cc)
  file_step-Adds false conf c (some s) h t = cc

  addressed-Adds :
      (s : ℕ) (r : Outcome (Unit {0}) × Core) (c : Core) (o : Option ℕ)
      → ((t : ℕ) → is_registered t r.1 ≡ is_registered t c)
      → is_registered s c ≡ false
      → (addressed log s r).0 ≡ ok o
      → Adds o c (addressed log s r).1
  unfolding addressed
  addressed-Adds s (ok u, d) c none k f h t = cc
  addressed-Adds s (ok u, d) c (some s') k f h t =
      let e : s ≡ s' = cc in
      (
        after_add_sink s d t
            ∙ ap (λ b. nat_eq s t || b) (k t)
            ∙ ap (λ u. nat_eq u t || is_registered t c) e,
        new s' t c (subst (λ u. is_registered u c ≡ false) e f),
      )
  addressed-Adds s (throws x, d) c o k f h t = cc
  addressed-Adds s (undefined u, d) c o k f h t = cc

  syslog_step-Adds :
      (b : Bool) (conf : LogConfiguration) (c : Core) (o : Option ℕ)
      → (syslog_step log b conf c).0 ≡ ok o
      → Adds o c (syslog_step log b conf c).1
  unfolding syslog_step
  syslog_step-Adds true conf c o h t =
      addressed-Adds (log.make_syslog_sink c).0 _ c o
        (λ t. after_address _ _ _ _ t ∙ after_make c t) (fresh_syslog c) h t
  syslog_step-Adds false conf c none h t = (refl, λ e. cc)
  syslog_step-Adds false conf c (some s) h t = cc

  finish-registered :
      (to_lower : String → String) (conf : LogConfiguration) (c : Core) (t : ℕ)
      → is_registered t (finish log to_lower conf c) ≡ is_registered t c
  unfolding finish set_level
  finish-registered to_lower conf c t = after_enabled _ _ t ∙ after_filter _ c t

  remove-registered :
      (o : Option ℕ) (c : Core) (t : ℕ)
      → is_registered t (remove log o c) ≡ (not (names o t) && is_registered t c)
  unfolding remove
  remove-registered none c t = refl
  remove-registered (some s) c t = after_remove_sink s c t

  destroy-registered :
      (l : BoostLogger) (c : Core) (t : ℕ)
      → is_registered t (destroy log l c) ≡ (
          not (names l.syslog_sink t)
          && (not (names l.file_sink t) && (not (names l.console_sink t) && is_registered t c)))
  unfolding destroy
  destroy-registered l c t =
      remove-registered l.syslog_sink _ t
      ∙ ap (λ b. not (names l.syslog_sink t) && b) (remove-registered l.file_sink _ t)
      ∙ ap (λ b. not (names l.syslog_sink t) && (not (names l.file_sink t) && b))
          (remove-registered l.console_sink c t)

  -- Destroying a logger that was constructed leaves the shared core with the sinks that it had
  -- before the construction, whichever sinks the configuration asks for.
  pub destroy-construct :
      (to_lower : String → String) (conf : LogConfiguration) (c c' : Core) (l : BoostLogger)
      → construct log to_lower conf c ≡ (ok l, c')
      → (t : ℕ) → is_registered t (destroy log l c') ≡ is_registered t c
  unfolding construct
  destroy-construct to_lower conf c c' l h t =
      let c0 = log.add_common_attributes c in
      let (console, c1) = console_step log conf.log_on_console c0 in
      let (file, f, h1) = and_then-eq-ok (file_step log conf.log_on_file conf c1) _ h in
      let c2 = (file_step log conf.log_on_file conf c1).1 in
      let (syslog, g, h2) = and_then-eq-ok (syslog_step log conf.log_on_syslog conf c2) _ h1 in
      let c3 = (syslog_step log conf.log_on_syslog conf c2).1 in
      let l' : BoostLogger = record {
        console_sink = console;
        file_sink = file;
        syslog_sink = syslog;
      } in
      let built : finish log to_lower conf c3 ≡ c' = ap (λ r. r.1) h2 in
      let same : l' ≡ l = cc in
      let (e1, n1) = console_step-Adds conf.log_on_console c0 t in
      let (e2, n2) = file_step-Adds conf.log_on_file conf c1 file f t in
      let (e3, n3) = syslog_step-Adds conf.log_on_syslog conf c2 syslog g t in
      let all = e3 ∙ ap (λ b. names syslog t || b) (e2 ∙ ap (λ b. names file t || b) e1) in
      sym (
        ap (λ (r : BoostLogger × Core). is_registered t (destroy log r.0 r.1))
          (λ i. (same i, built i)))
      ∙ destroy-registered l' _ t
      ∙ ap (λ b. not (names syslog t) && (not (names file t) && (not (names console t) && b)))
          (finish-registered to_lower conf c3 t ∙ all)
      ∙ added_and_removed (names console t) (names file t) (names syslog t) (is_registered t c0) n1
          (λ e. sym e1 ∙ n2 e) (λ e. sym (e2 ∙ ap (λ b. names file t || b) e1) ∙ n3 e)
      ∙ after_attributes c t
