-- ===== src/Node/Worker/Sync.antt =====
-- The manager monitors the channels that have topics, as long as no task throws.
use ekg.Prelude.{
  ◌≡◌, refl, sym, ap, ◌∙◌, String, Bool, true, false, Option, none, some, List, [], ◌∷◌, String_key,
  ◌==◌, if◌then◌else◌, arith, eq_iff, ==_refl, inl, inr, Option-cases, subst,
}
use ekg.Prelude.StdMap.{find, at-eq-get_or}
use ekg.Common.Outcome.{Outcome, Exception, ok, throws, undefined}
use ekg.Command.Types.{AquireFields}
use ekg.Epics.Channel.{Pvac, EpicsChannel}
use ekg.Epics.Manager.{Manager, rethrow, monitor_channel, add_channel}
use ekg.Epics.Manager.Channels.{
  start, Adds, add_channel-Adds, add_channel_present, find-remove_channel,
}
use ekg.Node.Worker.{WorkerState, has, is_filled, update_topics, acquire_management}
use ekg.Node.Worker.Topics.{
  topics_of, command_of, topics_of-acquire, run_all, run_all-last_wish, AllDistinct,
}

abbrev pub is_some {ℓ} : {A : Type ℓ} → Option A → Bool
is_some none = false
is_some (some a) = true

activated-is_filled :
    (topic : String) (ts : List String) → is_filled (update_topics true topic ts) ≡ true
unfolding update_topics
activated-is_filled topic [] = refl
activated-is_filled topic (t ∷ ts) = ground arith

module _ (pvac : Pvac) {H : Type 0} where
  abbrev pub monitors : Manager pvac H → String → Bool
  monitors m j = is_some (find j m.channel_map)

  monitors_of-Adds :
      (name : String) (m : Manager pvac H) (o : Outcome (EpicsChannel pvac))
      (r : Outcome (Unit {0}) × Manager pvac H) (j : String)
      → Adds pvac name m o r
      → r.0 ≡ ok tt
      → monitors r.1 j ≡ (if name == j then true else monitors m j)
  monitors_of-Adds name m (ok c) (r, m') j (_, _, lookups) k = ground (arith, lookups j)
  monitors_of-Adds name m (throws e) (r, m') j a k = cc (ap (λ q. q.0) a)
  monitors_of-Adds name m (undefined u) (r, m') j a k = cc

  -- A call that returns makes the channel monitored or not, as asked, and no other.
  pub monitors-monitor_channel :
      (name : String) (activate : Bool) (m : Manager pvac H) (j : String)
      → (monitor_channel pvac name activate m).0 ≡ ok tt
      → monitors (monitor_channel pvac name activate m).1 j
        ≡ (if name == j then activate else monitors m j)
  unfolding monitor_channel
  monitors-monitor_channel name false m j k = ground (arith, find-remove_channel pvac name j m)
  monitors-monitor_channel name true m j k = elim (Option-cases (find name m.channel_map)) [
    | inl e ↦ monitors_of-Adds name m _ _ j (add_channel-Adds pvac name m e "pva") k
    | inr (c, e) ↦
        rw (add_channel_present pvac name "pva" m (λ q. cc)) (ground (arith, eq_iff name j))
  ]

  monitor_channel-throws :
      (name : String) (e : Exception) (m : Manager pvac H)
      → find name m.channel_map ≡ none
      → start pvac "pva" name ≡ throws e
      → monitor_channel pvac name true m ≡ (throws (rethrow e), m)
  unfolding monitor_channel
  monitor_channel-throws name e m absent failed =
      subst (λ o. Adds pvac name m o (add_channel pvac name "pva" m)) failed
        (add_channel-Adds pvac name m absent "pva")

  -- Exactly the channels with a topic are monitored.
  abbrev pub IsInSync : WorkerState pvac H → Type 0
  IsInSync w =
      (j : String)
      → monitors w.epics_service_manager j ≡ is_filled (topics_of j w.channel_topics_map)

  -- The part of a task that concerns the manager.
  acquire-manager :
      (c : AquireFields) (w : WorkerState pvac H)
      → (
        (acquire_management pvac (command_of c) w).0,
        (acquire_management pvac (command_of c) w).1.epics_service_manager,
      )
        ≡ monitor_channel pvac c.channel_name
            (is_filled (
              update_topics c.activate c.destination_topic
                (topics_of c.channel_name w.channel_topics_map)))
            w.epics_service_manager
  unfolding acquire_management
  acquire-manager c w =
      ap
        (λ ts.
          monitor_channel pvac c.channel_name
            (is_filled (update_topics c.activate c.destination_topic ts)) w.epics_service_manager)
        (at-eq-get_or c.channel_name [] w.channel_topics_map)

  pub acquire-IsInSync :
      (c : AquireFields) (w : WorkerState pvac H)
      → IsInSync w
      → (acquire_management pvac (command_of c) w).0 ≡ ok tt
      → IsInSync (acquire_management pvac (command_of c) w).1
  acquire-IsInSync c w s k j =
      let returned =
        monitors-monitor_channel c.channel_name filled w.epics_service_manager j
          (sym (ap (λ r. r.0) (acquire-manager c w)) ∙ k) in
      ap (λ r. monitors r.1 j) (acquire-manager c w)
      ∙ ground (arith, returned, topics_of-acquire pvac c w j, s j, eq_iff c.channel_name j)
    where
      filled : Bool
      filled = is_filled (
          update_topics c.activate c.destination_topic
            (topics_of c.channel_name w.channel_topics_map))

  -- Every task of the sequence returns.
  abbrev pub AllReturn : List AquireFields → WorkerState pvac H → Type 0
  AllReturn [] w = Unit
  AllReturn (c ∷ cs) w =
      ((acquire_management pvac (command_of c) w).0 ≡ ok tt)
      × AllReturn cs (acquire_management pvac (command_of c) w).1

  -- If each task of a sequence returns, the manager monitors exactly the channels that have a
  -- topic afterwards, from a state where this holds.
  pub run_all-IsInSync :
      (cs : List AquireFields) (w : WorkerState pvac H)
      → AllReturn cs w
      → IsInSync w
      → IsInSync (run_all pvac cs w)
  run_all-IsInSync [] w r s = s
  run_all-IsInSync (c ∷ cs) w (r, rs) s = run_all-IsInSync cs _ rs (acquire-IsInSync c w s r)

  -- When a command activates a channel that is not yet monitored, from topics without
  -- repetition, and the start of the channel throws, the task throws what `addChannel` makes of
  -- it, the manager is left as it was, and the topic is registered all the same.
  pub acquire_failed :
      (c : AquireFields) (w : WorkerState pvac H) (e : Exception)
      → c.activate ≡ true
      → AllDistinct pvac w
      → find c.channel_name w.epics_service_manager.channel_map ≡ none
      → start pvac "pva" c.channel_name ≡ throws e
      → ((acquire_management pvac (command_of c) w).0 ≡ throws (rethrow e))
        × ((acquire_management pvac (command_of c) w).1.epics_service_manager
            ≡ w.epics_service_manager)
        × (has c.destination_topic (
              topics_of c.channel_name
                (acquire_management pvac (command_of c) w).1.channel_topics_map)
            ≡ true)
  acquire_failed c w e on d absent failed = (ap (λ r. r.0) whole, ap (λ r. r.1) whole, kept)
    where
      starts :
          monitor_channel pvac c.channel_name true w.epics_service_manager
          ≡ (throws (rethrow e), w.epics_service_manager)
      starts = monitor_channel-throws c.channel_name e w.epics_service_manager absent failed

      whole :
          ◌≡◌ {A = Outcome (Unit {0}) × Manager pvac H}
            (
              (acquire_management pvac (command_of c) w).0,
              (acquire_management pvac (command_of c) w).1.epics_service_manager,
            )
            (throws (rethrow e), w.epics_service_manager)
      whole = acquire-manager c w ∙ rw (on, activated-is_filled) starts

      kept :
          has c.destination_topic (
            topics_of c.channel_name
              (acquire_management pvac (command_of c) w).1.channel_topics_map)
          ≡ true
      kept =
          (run_all-last_wish pvac (c ∷ []) w c.channel_name c.destination_topic d).0
          ∙ simp (==_refl, on)
