-- ===== src/Node/Worker/Overlap/Block.antt =====
-- The block of `acquireManagement` on the map as its own steps, for an activation: the search of
-- the topic, which takes no lock, the insertion, which does, and the size, which does not.
use mathlib.Core.Path.{ap₂}
use ekg.Prelude.{
  ◌≡◌, refl, sym, ap, ◌∙◌, String, Bool, true, false, List, [], ◌∷◌, ◌++◌, String_key, ◌==◌,
  if◌then◌else◌, arith, eq_iff, ==_refl, append_assoc, ==_cases, inl, inr, subst,
}
use ekg.Prelude.StdMap.{at, assign, find-assign, find-at, at-eq-get_or}
use ekg.Command.Types.{AquireFields}
use ekg.Epics.Channel.{Pvac}
use ekg.Node.Worker.{
  WorkerState, has, erase_first, update_topics, log_update, update_map, is_filled,
}
use ekg.Node.Worker.Overlap.Race.{wish_of}
use ekg.Node.Worker.Overlap.Routes.{topics, topics-update_map, flag-update_map}

has-doubled : (topic : String) (ts : List String) → has topic (ts ++ topic ∷ topic ∷ []) ≡ true
has-doubled topic [] = rw (==_refl topic) refl
has-doubled topic (t ∷ ts) = ground (arith, has-doubled topic ts)

erase_first-doubled :
    (topic : String) (ts : List String)
    → has topic ts ≡ false
    → has topic (erase_first topic (ts ++ topic ∷ topic ∷ [])) ≡ true
unfolding erase_first
erase_first-doubled topic [] h = ground (arith, eq_iff topic topic)
erase_first-doubled topic (t ∷ ts) h =
    ground (arith, erase_first-doubled topic ts, eq_iff t topic, eq_iff topic t)

module _ (pvac : Pvac) {H : Type 0} where
  -- operator[] and std::find: whether the topic is there.
  unfoldable pub look : AquireFields → WorkerState pvac H → Bool × WorkerState pvac H
  look c w =
      let (ts, map') = at c.channel_name [] w.channel_topics_map in
      (has c.destination_topic ts, record w { channel_topics_map = map' })

  -- What an activation does with the answer: the log line, and push_back under the lock.
  unfoldable pub push : AquireFields → Bool → WorkerState pvac H → WorkerState pvac H
  unfolding log_update
  push c found w =
      let (ts, map') = at c.channel_name [] w.channel_topics_map in
      let pushed : WorkerState pvac H = record w {
        channel_topics_map = assign c.channel_name (ts ++ c.destination_topic ∷ []) map';
        log = w.log ++ log_update c [];
      } in
      if found then w else pushed

  -- The value of `activate` that the task takes along.
  unfoldable pub measure : AquireFields → WorkerState pvac H → Bool
  measure c w = is_filled (topics pvac w c.channel_name)

  topics-look :
      (c : AquireFields) (w : WorkerState pvac H) (j : String)
      → topics pvac (look c w).1 j ≡ topics pvac w j
  unfolding look
  topics-look c w j =
      ground (arith, find-at c.channel_name j [] w.channel_topics_map, eq_iff c.channel_name j)

  found-look :
      (c : AquireFields) (w : WorkerState pvac H)
      → (look c w).0 ≡ has c.destination_topic (topics pvac w c.channel_name)
  unfolding look
  found-look c w =
      ap (has c.destination_topic) (at-eq-get_or c.channel_name [] w.channel_topics_map)

  topics-push :
      (c : AquireFields) (w : WorkerState pvac H) (j : String)
      → topics pvac (push c false w) j ≡ (
          if c.channel_name == j
          then topics pvac w j ++ c.destination_topic ∷ []
          else topics pvac w j)
  unfolding push
  topics-push c w j = ground (
    arith,
    find-assign c.channel_name j
        ((at c.channel_name [] w.channel_topics_map).0 ++ c.destination_topic ∷ [])
        (at c.channel_name [] w.channel_topics_map).1,
    find-at c.channel_name j [] w.channel_topics_map,
    at-eq-get_or c.channel_name [] w.channel_topics_map,
    eq_iff c.channel_name j,
  )

  module _ (channel protocol topic : String) (w : WorkerState pvac H)
      (absent : has topic (topics pvac w channel) ≡ false) where
    abbrev on : AquireFields
    on = wish_of channel protocol topic true

    abbrev w1 : WorkerState pvac H
    w1 = (look on w).1

    -- Both tasks have searched.
    abbrev w2 : WorkerState pvac H
    w2 = (look on w1).1

    first : (look on w).0 ≡ false
    first = found-look on w ∙ absent

    second : (look on w1).0 ≡ false
    second = found-look on w1 ∙ ap (has topic) (topics-look on w channel) ∙ absent

    topics-twice :
        topics pvac (push on false (push on false w2)) channel
        ≡ topics pvac w channel ++ topic ∷ topic ∷ []
    topics-twice =
        topics-push on (push on false w2) channel
        ∙ rw (==_refl channel) (
            ap (λ ts. ts ++ topic ∷ [])
              (topics-push on w2 channel
                ∙ rw (==_refl channel) (
                    ap (λ ts. ts ++ topic ∷ [])
                      (topics-look on w1 channel ∙ topics-look on w channel)))
            ∙ append_assoc (topics pvac w channel) (topic ∷ []) (topic ∷ []))

    both : push on (look on w1).0 (push on (look on w).0 w2) ≡ push on false (push on false w2)
    both = ap₂ (λ f g. push on g (push on f w2)) first second

    left_over :
        (v : WorkerState pvac H)
        → topics pvac v channel ≡ topics pvac w channel ++ topic ∷ topic ∷ []
        → has topic
            (topics pvac (update_map pvac (wish_of channel protocol topic false) v).1 channel)
          ≡ true
    unfolding update_topics
    left_over v e =
        ap (has topic) (
          topics-update_map pvac (wish_of channel protocol topic false) v channel
          ∙ rw (==_refl channel, e, has-doubled topic (topics pvac w channel)) refl)
        ∙ erase_first-doubled topic (topics pvac w channel) absent

    alone :
        (j : String)
        → topics pvac (push on (look on w).0 w1) j ≡ topics pvac (update_map pvac on w).1 j
    unfolding update_topics
    alone j =
        ap (λ f. topics pvac (push on f w1) j) first
        ∙ topics-push on w1 j
        ∙ rw (topics-look on w j) (elim (==_cases channel j) [
          | inl (hit, e) ↦
              let absent_j = subst (λ n. has topic (topics pvac w n) ≡ false) e absent in
              sym (topics-update_map pvac on w j ∙ rw (hit, absent_j) refl)
          | inr (miss, _) ↦ rw miss (sym (topics-update_map pvac on w j ∙ rw miss refl))
        ])

    -- Two activations of a topic on a channel that does not have it. When both search before
    -- either inserts, the channel has the topic twice, and a deactivation of the topic, whose
    -- block runs alone behind them, leaves it there. When the one task's search, insertion and
    -- size run without another's in between, they leave the topics that `update_map` does, and take
    -- along the same value.
    pub overlap_doubles_topic :
        (topics pvac (push on (look on w1).0 (push on (look on w).0 w2)) channel
          ≡ topics pvac w channel ++ topic ∷ topic ∷ [])
        × (has topic (
              topics pvac
                (update_map pvac
                  (wish_of channel protocol topic false)
                  (push on (look on w1).0 (push on (look on w).0 w2))).1
                channel)
            ≡ true)
        × ((j : String)
            → topics pvac (push on (look on w).0 w1) j ≡ topics pvac (update_map pvac on w).1 j)
        × (measure on (push on (look on w).0 w1) ≡ (update_map pvac on w).0)
    unfolding measure
    overlap_doubles_topic =
        let twice = ap (λ v. topics pvac v channel) both ∙ topics-twice in
        (
          twice,
          left_over _ twice,
          alone,
          ap is_filled (alone channel) ∙ sym (flag-update_map pvac on w),
        )
