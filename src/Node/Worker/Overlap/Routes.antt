-- ===== src/Node/Worker/Overlap/Routes.antt =====
-- The topics do not depend on how the tasks overlap.
use mathlib.Core.Path.{fun_ext}
use ekg.Prelude.{
  ==_refl, ◌≡◌, refl, sym, ap, ◌∙◌, String, List, [], ◌∷◌, String_key, ◌==◌, if◌then◌else◌, arith,
  eq_iff,
}
use ekg.Prelude.StdMap.{find-assign, find-at, at-eq-get_or, at}
use ekg.Command.Types.{AquireFields}
use ekg.Epics.Channel.{Pvac}
use ekg.Node.Worker.{WorkerState, update_topics, update_map, call_monitor, is_filled}
use ekg.Node.Worker.Topics.{topics_of, run_all, topics_of-acquire}
use ekg.Node.Worker.Overlap.{Tasks, begin, end, Runs, rest, begins, ends}

-- The topics of each channel behind a command, as a function of those in front.
abbrev pub route : AquireFields → (String → List String) → String → List String
route c f j =
    if c.channel_name == j then update_topics c.activate c.destination_topic (f j) else f j

abbrev pub route_all : List AquireFields → (String → List String) → String → List String
route_all [] f = f
route_all (c ∷ cs) f = route_all cs (route c f)

module _ (pvac : Pvac) {H : Type 0} where
  abbrev pub topics : WorkerState pvac H → String → List String
  topics w j = topics_of j w.channel_topics_map

  pub topics-update_map :
      (c : AquireFields) (w : WorkerState pvac H) (j : String)
      → topics (update_map pvac c w).1 j ≡ route c (topics w) j
  unfolding update_map
  topics-update_map c w j = ground (
    arith,
    find-assign c.channel_name j
        (update_topics c.activate c.destination_topic (at c.channel_name [] w.channel_topics_map).0)
        (at c.channel_name [] w.channel_topics_map).1,
    find-at c.channel_name j [] w.channel_topics_map,
    at-eq-get_or c.channel_name [] w.channel_topics_map,
    eq_iff c.channel_name j,
  )

  -- The value that a task takes along is whether its channel has topics behind its block.
  pub flag-update_map :
      (c : AquireFields) (w : WorkerState pvac H)
      → (update_map pvac c w).0 ≡ is_filled (topics (update_map pvac c w).1 c.channel_name)
  unfolding update_map
  flag-update_map c w =
      ap (λ ts. is_filled (update_topics c.activate c.destination_topic ts))
        (at-eq-get_or c.channel_name [] w.channel_topics_map)
      ∙ ap is_filled (sym (topics-update_map c w c.channel_name ∙ rw (==_refl c.channel_name) refl))

  pub topics-run_all :
      (cs : List AquireFields) (w : WorkerState pvac H)
      → topics (run_all pvac cs w) ≡ route_all cs (topics w)
  topics-run_all [] w = refl
  topics-run_all (c ∷ cs) w =
      topics-run_all cs _ ∙ ap (route_all cs) (fun_ext (topics_of-acquire pvac c w))

  module _ {May : AquireFields → Tasks pvac H → Type 0} where
    topics-Runs :
        {s t : Tasks pvac H} {cs : List AquireFields}
        → Runs pvac May s cs t
        → topics t.worker ≡ route_all cs (topics s.worker)
    unfolding begin end call_monitor
    topics-Runs rest = refl
    topics-Runs {s} (begins {cs} c may r) =
        topics-Runs r ∙ ap (route_all cs) (fun_ext (topics-update_map c s.worker))
    topics-Runs (ends before after name activate e o r) = topics-Runs r

    -- However the tasks of the pool overlap, the topics of every channel are those that the same
    -- commands leave when they run one after the other in the order in which they begin.
    pub Runs-run_all :
        {s t : Tasks pvac H} {cs : List AquireFields}
        → Runs pvac May s cs t
        → (channel : String)
        → topics_of channel t.worker.channel_topics_map
          ≡ topics_of channel (run_all pvac cs s.worker).channel_topics_map
    Runs-run_all {s} {cs} r channel =
        ap (λ f. f channel) (topics-Runs r ∙ sym (topics-run_all cs s.worker))
