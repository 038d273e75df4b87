-- ===== src/Node/Worker/Overlap/Race.antt =====
-- What overlapping tasks of one channel can do.
use mathlib.Core.Path.{ap₂}
use ekg.Prelude.{
  ◌≡◌, refl, ap, ◌∙◌, String, Bool, true, false, none, some, [], ◌∷◌, String_key, arith, eq_iff,
  ==_refl,
}
use ekg.Prelude.StdMap.{find}
use ekg.Common.Outcome.{ok}
use ekg.Command.Types.{AquireFields}
use ekg.Epics.Channel.{Pvac, EpicsChannel}
use ekg.Epics.Manager.{monitor_channel}
use ekg.Epics.Manager.Channels.{add_channel_present, find-remove_channel}
use ekg.Node.Worker.{WorkerState, update_topics, erase_first, update_map, call_monitor, is_filled}
use ekg.Node.Worker.Sync.{monitors, is_some}
use ekg.Node.Worker.Overlap.{Tasks, Returns, begin, end, Runs, rest, begins, ends}
use ekg.Node.Worker.Overlap.Routes.{topics, topics-update_map, flag-update_map}

abbrev pub wish_of : String → String → String → Bool → AquireFields
wish_of channel protocol topic activate = record {
  channel_name = channel;
  protocol = protocol;
  activate = activate;
  destination_topic = topic;
}

module _ (pvac : Pvac) {H : Type 0} where
  call_monitor_present :
      (name : String) (w : WorkerState pvac H) (c : EpicsChannel pvac)
      → find name w.epics_service_manager.channel_map ≡ some c
      → call_monitor pvac name true w ≡ (ok tt, w)
  unfolding call_monitor monitor_channel
  call_monitor_present name w c h =
      rw (add_channel_present pvac name "pva" w.epics_service_manager (λ e. cc)) refl

  monitors-call_monitor-false :
      (name : String) (w : WorkerState pvac H)
      → monitors pvac (call_monitor pvac name false w).1.epics_service_manager name ≡ false
  unfolding call_monitor monitor_channel
  monitors-call_monitor-false name w =
      ap is_some {y = none}
        (find-remove_channel pvac name name w.epics_service_manager ∙ rw (==_refl name) refl)

  Returns-call_monitor-false :
      (name : String) (w : WorkerState pvac H) → Returns (call_monitor pvac name false w).0
  unfolding call_monitor monitor_channel
  Returns-call_monitor-false name w = refl

  module _ (channel protocol t u : String) (w : WorkerState pvac H) (c : EpicsChannel pvac)
      (routed : topics pvac w channel ≡ t ∷ [])
      (watched : find channel w.epics_service_manager.channel_map ≡ some c) where
    abbrev off : AquireFields
    off = wish_of channel protocol t false

    abbrev on : AquireFields
    on = wish_of channel protocol u true

    abbrev w1 : WorkerState pvac H
    w1 = (update_map pvac off w).1

    abbrev w2 : WorkerState pvac H
    w2 = (update_map pvac on w1).1

    topics-w1 : topics pvac w1 channel ≡ []
    unfolding update_topics erase_first
    topics-w1 =
        topics-update_map pvac off w channel
        ∙ rw (==_refl channel, routed) (ground (arith, eq_iff t t))

    topics-w2 : topics pvac w2 channel ≡ u ∷ []
    unfolding update_topics
    topics-w2 = topics-update_map pvac on w1 channel ∙ rw (==_refl channel, topics-w1) refl

    off_flag : (update_map pvac off w).0 ≡ false
    off_flag = flag-update_map pvac off w ∙ ap is_filled topics-w1

    on_flag : (update_map pvac on w1).0 ≡ true
    on_flag = flag-update_map pvac on w1 ∙ ap is_filled topics-w2

    watched_still : find channel w2.epics_service_manager.channel_map ≡ some c
    unfolding update_map
    watched_still = watched

    -- The worker behind both calls.
    ended : call_monitor pvac channel (update_map pvac on w1).0 w2 ≡ (ok tt, w2)
    ended =
        ap (λ b. call_monitor pvac channel b w2) on_flag
        ∙ call_monitor_present channel w2 c watched_still

    last :
        call_monitor pvac channel
          (update_map pvac off w).0
          (call_monitor pvac channel (update_map pvac on w1).0 w2).1
        ≡ call_monitor pvac channel false w2
    last = ap₂ (call_monitor pvac channel) off_flag (ap (λ r. r.1) ended)

    topics-last : topics pvac (call_monitor pvac channel false w2).1 channel ≡ u ∷ []
    unfolding call_monitor
    topics-last = topics-w2

    -- A race of two tasks on one channel. One deactivates the only topic of a monitored channel,
    -- the other activates a topic; both end without an exception, and afterwards the channel has the
    -- second topic and is not monitored. This is so although each block on the map runs alone.
    pub overlap_loses_channel :
        (s : Tasks pvac H) × Runs pvac
          (λ d r. Unit {0})
          (record { worker = w; in_flight = [] })
          (off ∷ on ∷ [])
          s
        × (s.in_flight ≡ [])
        × (topics pvac s.worker channel ≡ u ∷ [])
        × (monitors pvac s.worker.epics_service_manager channel ≡ false)
    unfolding begin end
    overlap_loses_channel = (
      _,
      begins off tt (
          begins on tt (
            ends ((channel, (update_map pvac off w).0) ∷ []) [] channel (update_map pvac on w1).0
              refl (ap (λ r. r.0) ended)
              (ends [] [] channel (update_map pvac off w).0 refl
                (ap (λ r. r.0) last ∙ Returns-call_monitor-false channel w2) rest))),
      refl,
      ap (λ r. topics pvac r.1 channel) last ∙ topics-last,
      ap (λ r. monitors pvac r.1.epics_service_manager channel) last
          ∙ monitors-call_monitor-false channel w2,
    )
