-- ===== src/Tests/Overlap.antt =====
-- Tasks that overlap on the stand-in for the PVA client.
use ekg.Prelude.{String, ℕ, ◌≡◌, refl, true, false, [], ◌∷◌, String_key}
use ekg.Prelude.StdMap.{find}
use ekg.Node.Worker.{WorkerState, has, update_map}
use ekg.Node.Worker.Sync.{monitors}
use ekg.Node.Worker.Overlap.{Tasks, Runs}
use ekg.Node.Worker.Overlap.Routes.{topics}
use ekg.Node.Worker.Overlap.Block.{look, push, measure, overlap_doubles_topic}
use ekg.Node.Worker.Overlap.Race.{wish_of, overlap_loses_channel}
use ekg.Tests.{pvac, channel_a, manager}

-- The channel is sent to "t1" and monitored.
abbrev watching : WorkerState pvac ℕ
watching = record {
  channel_topics_map = ("channel:a", "t1" ∷ []) ∷ [];
  epics_service_manager = manager;
  log = [];
}

overlap_example :
    (s : Tasks pvac ℕ) × Runs pvac
      (λ d r. Unit {0})
      (record { worker = watching; in_flight = [] })
      (wish_of "channel:a" "pva" "t1" false ∷ wish_of "channel:a" "pva" "t2" true ∷ [])
      s
    × (s.in_flight ≡ [])
    × (topics pvac s.worker "channel:a" ≡ "t2" ∷ [])
    × (monitors pvac s.worker.epics_service_manager "channel:a" ≡ false)
unfolding find
overlap_example =
    overlap_loses_channel pvac "channel:a" "pva" "t1" "t2" watching channel_a refl refl

-- Two activations of "t2" while "channel:a" has "t1".
doubled_example :
    let on = wish_of "channel:a" "pva" "t2" true in
    let (first, w1) = look pvac on watching in
    let (second, w2) = look pvac on w1 in
    let doubled = push pvac on second (push pvac on first w2) in
    (topics pvac doubled "channel:a" ≡ "t1" ∷ "t2" ∷ "t2" ∷ [])
    × (has "t2" (
          topics pvac
            (update_map pvac (wish_of "channel:a" "pva" "t2" false) doubled).1
            "channel:a")
        ≡ true)
    × ((j : String)
        → topics pvac (push pvac on first w1) j ≡ topics pvac (update_map pvac on watching).1 j)
    × (measure pvac on (push pvac on first w1) ≡ (update_map pvac on watching).0)
unfolding find
doubled_example = overlap_doubles_topic pvac "channel:a" "pva" "t2" watching refl
