-- ===== src/Tests/Monitoring.antt =====
-- Channels, handlers and topics on the stand-in for the PVA client.
use ekg.Prelude.{
  ℕ, ◌≡◌, refl, String, Bool, true, false, List, [], ◌∷◌, ◌++◌, if◌then◌else◌, String_key, ℕ_key,
  ◌==◌,
}
use ekg.Prelude.StdMap.{find}
use ekg.Common.Outcome.{throws, runtime_error}
use ekg.Common.Broadcaster.{deliver, deliver_dropped}
use ekg.Epics.Channel.{MonitorEvent, create, connect, monitor, monitor_drains, Carries, WasEmpty}
use ekg.Epics.Manager.{add_channel, rethrow}
use ekg.Epics.Manager.Channels.{add_channel-Adds}
use ekg.Node.Worker.{has, acquire_management}
use ekg.Node.Worker.Topics.{topics_of, command_of, Distinct}
use ekg.Node.Worker.Sync.{IsInSync, acquire_failed}
use ekg.Tests.{pvac, idle_manager, worker, acquire}

monitor_drains_example :
    (es : List (MonitorEvent pvac)) × (s' : List ℕ) × (monitor pvac "channel:a" (1 ∷ 2 ∷ [])
      ≡ (es, s'))
    × Carries pvac "channel:a" es (1 ∷ 2 ∷ [])
    × WasEmpty pvac s'
monitor_drains_example = monitor_drains pvac "channel:a" (1 ∷ 2 ∷ []) refl refl

add_channel_example :
    add_channel pvac {H = ℕ} "bad" "pva" idle_manager
    ≡ (throws (rethrow (runtime_error "not connected")), idle_manager)
unfolding find create connect
add_channel_example = add_channel-Adds pvac "bad" idle_manager refl "pva"

worker-AllDistinct : (j : String) → Distinct (topics_of j worker.channel_topics_map)
unfolding find
worker-AllDistinct j = tt

worker-IsInSync : IsInSync pvac worker
unfolding find
worker-IsInSync j = refl

acquire_failed_example :
    ((acquire_management pvac (command_of (acquire "bad" true "t1")) worker).0
      ≡ throws (rethrow (runtime_error "not connected")))
    × ((acquire_management pvac
          (command_of (acquire "bad" true "t1"))
          worker).1.epics_service_manager
        ≡ idle_manager)
    × (has "t1" (
          topics_of "bad"
            (acquire_management pvac
              (command_of (acquire "bad" true "t1"))
              worker).1.channel_topics_map)
        ≡ true)
unfolding find create connect
acquire_failed_example =
    acquire_failed pvac (acquire "bad" true "t1") worker (runtime_error "not connected") refl
      worker-AllDistinct refl refl

-- Handlers that write their number.
wrote : ℕ → ℕ → List ℕ → List ℕ
wrote h x w = w ++ h ∷ x ∷ []

-- The world is whether the token of handler 2 is held; handler 1 drops it.
held : Bool → ℕ → Bool
held w h = if h == 2 then w else true

drops : ℕ → ℕ → Bool → Bool
drops h x w = if h == 1 then false else w

deliver_dropped_example :
    deliver held drops 9 (1 ∷ 2 ∷ []) true ≡ deliver held drops 9 [] (drops 1 9 true)
unfolding held drops
deliver_dropped_example = deliver_dropped held drops 9 1 2 [] true refl refl
