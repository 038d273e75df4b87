-- ===== src/Gateway/System/Steady.antt =====
-- What is monitored, in the whole program: the channels that have topics.
use ekg.Prelude.{
  ◌≡◌, refl, sym, ap, ◌∙◌, String, Option, List, [], ◌∷◌, ◌++◌, inl, inr, subst, String_key,
}
use ekg.Prelude.StdMap.{StdMap, find}
use ekg.Consumer.{JsonLibrary, Subscriber}
use ekg.Data.Orm.{Orm}
use ekg.Epics.Channel.{Pvac}
use ekg.Gateway.System.{
  Program, Label, poll_next, start_task, Step, takes, begins, ends, locks, polls, unlocks, Run,
  stays, goes,
}
use ekg.Gateway.System.Invariant.{IsPlaced, IsSound, Step-IsSound, find-replaced}
use ekg.Gateway.System.Polls.{process_iterator-Delivers}
use ekg.Node.Worker.{is_filled}
use ekg.Node.Worker.Overlap.Serial.{IsFree, IsSteady, begin-IsSteady, end-IsSteady}
use ekg.Node.Worker.Sync.{is_some}
use ekg.Pubsub.Publisher.{Producer}

is_some-replaced :
    {A : Type 0} (behind ahead : StdMap String A) (k j : String) (c d : A)
    → is_some (find j (behind ++ (k, c) ∷ ahead)) ≡ is_some (find j (behind ++ (k, d) ∷ ahead))
is_some-replaced behind ahead k j c d = elim (find-replaced behind ahead k j c d) [
  | inl same ↦ ap is_some (sym same)
  | inr (new, old) ↦ rw (new, old) refl
]

module _ (orm : Orm) (pvac : Pvac) (value_of : Option (Pvac.Structure pvac) → String)
    (json : JsonLibrary) {B Q : Type 0} (subscriber : Subscriber B) (producer : Producer Q) where
  -- A task begins when no other of its channel is in flight.
  unfoldable pub IsOrderly :
      {s t : Program orm pvac B Q} {l : Label pvac}
      → Step orm pvac value_of json subscriber producer s l t
      → Type 0
  IsOrderly (takes s cs log b' n' h e) = Unit
  IsOrderly (begins s before after c f e typed h) = IsFree pvac f s.pool
  IsOrderly (ends s before after name activate free e d) = Unit
  IsOrderly (locks s free) = Unit
  IsOrderly (polls s behind ahead k c e) = Unit
  IsOrderly (unlocks s behind e) = Unit

  -- Every step of a run is orderly.
  unfoldable pub AreOrderly :
      {s t : Program orm pvac B Q} {ls : List (Label pvac)}
      → Run orm pvac value_of json subscriber producer s ls t
      → Type 0
  AreOrderly stays = Unit
  AreOrderly (goes st r) = IsOrderly st × AreOrderly r

  Step-IsSteady :
      {s t : Program orm pvac B Q} {l : Label pvac}
      → (st : Step orm pvac value_of json subscriber producer s l t) → IsOrderly st
      → IsSound orm pvac value_of json subscriber producer s
      → IsSteady pvac s.pool
      → IsSteady pvac t.pool
  unfolding IsOrderly start_task poll_next
  Step-IsSteady (takes s cs log b' n' h e) o i v = v
  Step-IsSteady (begins s before after c f e typed h) o i v = begin-IsSteady pvac f s.pool o v
  Step-IsSteady (ends s before after name activate free e d) o i v =
      end-IsSteady pvac before after name activate s.pool e d v
  Step-IsSteady (locks s free) o i v = v
  Step-IsSteady (polls s behind ahead k c e) o i v = λ j.
      let w = s.pool.worker in
      let (_, _, _, kept) =
        process_iterator-Delivers pvac value_of producer c w.epics_service_manager.targets
          (w.channel_topics_map, s.queue) i.handled in
      let place : w.epics_service_manager.channel_map ≡ behind ++ (k, c) ∷ ahead =
        subst
          (λ r.
            IsPlaced orm pvac value_of json subscriber producer r
              w.epics_service_manager.channel_map)
          e i.placed in
      elim (v j) [
        | inl (f, m) ↦ inl (
          f,
          sym (ap (λ map. is_some (find j map)) place ∙ is_some-replaced behind ahead k j c _)
              ∙ m
              ∙ ap is_filled (sym (kept j)),
        )
        | inr f ↦ inr (f ∙ ap (λ r. is_filled r ∷ []) (sym (kept j)))
      ]
  Step-IsSteady (unlocks s behind e) o i v = v

  -- While requests are taken, tasks begin and end, and the polling thread polls: if no task begins
  -- while another of its channel is in flight, and every call of `monitorChannel` returns (one that
  -- throws ends the process), then each
  -- channel with no task in flight is monitored exactly when it has topics, and the only task of any
  -- other takes along whether the channel has topics, from a sound state where this holds.
  pub Run-IsSteady :
      {s t : Program orm pvac B Q} {ls : List (Label pvac)}
      → (r : Run orm pvac value_of json subscriber producer s ls t) → AreOrderly r
      → IsSound orm pvac value_of json subscriber producer s
      → IsSteady pvac s.pool
      → IsSteady pvac t.pool
  unfolding AreOrderly
  Run-IsSteady stays o i v = v
  Run-IsSteady (goes st r) (o, os) i v =
      Run-IsSteady r os (Step-IsSound orm pvac value_of json subscriber producer st i)
        (Step-IsSteady st o i v)
