-- ===== src/Gateway/System/Invariant.antt =====
-- What every step of the program keeps.
use ekg.Prelude.{
  ◌≡◌, refl, sym, subst, ◌∙◌, String, true, Option, none, some, List, [], ◌∷◌, ◌++◌, All,
  All-append, filter, String_key, ◌==◌, append_assoc, Bool-cases, ◌⊎◌, inl, inr,
}
use ekg.Prelude.StdMap.{StdMap, find}
use ekg.Command.Types.{
  Command, AquireFields, IsWellTyped, aquire_command, get_command, put_command, info_command,
}
use ekg.Consumer.{JsonLibrary, Subscriber}
use ekg.Data.Orm.{Orm}
use ekg.Epics.Channel.{Pvac, EpicsChannel}
use ekg.Epics.Manager.{poll_channel}
use ekg.Epics.Manager.Invariant.{
  IsStartedAs, IsStarted, poll_channel-IsStartedAs, monitor_channel-IsStarted,
}
use ekg.Epics.Manager.Targets.{targets-monitor_channel}
use ekg.Gateway.System.{
  Program, Round, Label, poll_next, start_task, Step, takes, begins, ends, locks, polls, unlocks,
  Run, stays, goes,
}
use ekg.Gateway.System.Polls.{process_iterator-Delivers}
use ekg.Gateway.System.Sends.{routes}
use ekg.Gateway.System.Takes.{consume_round-Took}
use ekg.Node.Controller.Dispatch.{IsRegistered, is_aquire}
use ekg.Node.Worker.{call_monitor}
use ekg.Node.Worker.Overlap.{begin, end}
use ekg.Node.Worker.Overlap.Routes.{topics-update_map, route}
use ekg.Node.Worker.Topics.{Distinct, Distinct-update_topics}
use ekg.Pubsub.Publisher.{Producer}

-- A task of the pool: an acquire command of its type.
abbrev pub IsTask : Command → Type 0
IsTask c = (is_aquire c ≡ true) × IsWellTyped c

IsTask-filter : (cs : List Command) → All IsWellTyped cs → All IsTask (filter is_aquire cs)
IsTask-filter [] h = tt
IsTask-filter (aquire_command b a topic ∷ cs) (h, hs) = ((refl, h), IsTask-filter cs hs)
IsTask-filter (get_command b topic ∷ cs) (h, hs) = IsTask-filter cs hs
IsTask-filter (put_command b value ∷ cs) (h, hs) = IsTask-filter cs hs
IsTask-filter (info_command b topic ∷ cs) (h, hs) = IsTask-filter cs hs

All-without :
    {A : Type 0} (P : A → Type 0) (before after : List A) (x : A)
    → All P (before ++ x ∷ after)
    → All P (before ++ after)
All-without P [] after x (p, ps) = ps
All-without P (y ∷ ys) after x (p, ps) = (p, All-without P ys after x ps)

pub find-replaced :
    {A : Type 0} (behind ahead : StdMap String A) (k j : String) (c d : A)
    → (find j (behind ++ (k, d) ∷ ahead) ≡ find j (behind ++ (k, c) ∷ ahead))
      ⊎ ((find j (behind ++ (k, d) ∷ ahead) ≡ some d)
          × (find j (behind ++ (k, c) ∷ ahead) ≡ some c))
unfolding find
find-replaced [] ahead k j c d = elim (Bool-cases (k == j)) [
  | inl e ↦ inr (rw e, rw e)
  | inr e ↦ inl (rw e)
]
find-replaced ((i, x) ∷ behind) ahead k j c d = elim (Bool-cases (i == j)) [
  | inl e ↦ inl (rw e)
  | inr e ↦ rw e (find-replaced behind ahead k j c d)
]

module _ (orm : Orm) (pvac : Pvac) (value_of : Option (Pvac.Structure pvac) → String)
    (json : JsonLibrary) {B Q : Type 0} (subscriber : Subscriber B) (producer : Producer Q) where
  -- In a round, what is behind and what is ahead make up the map.
  abbrev pub IsPlaced : Option (Round pvac) → StdMap String (EpicsChannel pvac) → Type 0
  IsPlaced none map = Unit
  IsPlaced (some (behind, ahead)) map = map ≡ behind ++ ahead

  pub record IsSound (s : Program orm pvac B Q) : Type 0 where
    pub registered : IsRegistered s.node.worker_resolver
    pub typed : All IsTask s.node.tasks
    pub handled : s.pool.worker.epics_service_manager.targets ≡ tt ∷ []
    pub distinct : (j : String) → Distinct (routes orm pvac value_of json subscriber producer s j)
    pub started : IsStarted pvac s.pool.worker.epics_service_manager
    pub placed : IsPlaced s.round s.pool.worker.epics_service_manager.channel_map

  Distinct-route :
      (f : AquireFields) (r : String → List String)
      → ((j : String) → Distinct (r j))
      → (j : String) → Distinct (route f r j)
  Distinct-route f r d j = elim (Bool-cases (f.channel_name == j)) [
    | inl e ↦ rw e (Distinct-update_topics f.activate f.destination_topic (r j) (d j))
    | inr e ↦ rw e (d j)
  ]

  replaced-IsStarted :
      (behind ahead : StdMap String (EpicsChannel pvac)) (k : String) (c d : EpicsChannel pvac)
      → d ≡ (poll_channel pvac c).1
      → ((j : String) (x : EpicsChannel pvac)
          → find j (behind ++ (k, c) ∷ ahead) ≡ some x
          → IsStartedAs pvac j x)
      → (j : String) (x : EpicsChannel pvac) → find j (behind ++ (k, d) ∷ ahead) ≡ some x
      → IsStartedAs pvac j x
  replaced-IsStarted behind ahead k c d e inv j x f = elim (find-replaced behind ahead k j c d) [
    | inl same ↦ inv j x (sym same ∙ f)
    | inr (new, old) ↦
        let is : d ≡ x = cc (sym new ∙ f) in
        subst (IsStartedAs pvac j) (sym e ∙ is) (poll_channel-IsStartedAs pvac j c (inv j c old))
  ]

  pub Step-IsSound :
      {s t : Program orm pvac B Q} {l : Label pvac}
      → Step orm pvac value_of json subscriber producer s l t
      → IsSound s
      → IsSound t
  unfolding start_task begin end call_monitor poll_next
  Step-IsSound (takes s cs log b' n' h e) i =
      let ((tasks, registered), typed) =
        consume_round-Took orm json subscriber s.broker b' s.node n' cs log h i.registered e in
      record {
        registered = registered;
        typed =
            subst (All IsTask) (sym tasks)
              (All-append IsTask s.node.tasks _ i.typed (IsTask-filter cs typed));
        handled = i.handled;
        distinct = i.distinct;
        started = i.started;
        placed = i.placed;
      }
  Step-IsSound (begins s before after c f e typed h) i = record {
    registered = i.registered;
    typed = All-without IsTask before after c (subst (All IsTask) e i.typed);
    handled = i.handled;
    distinct = λ j.
        subst Distinct (sym (topics-update_map pvac f s.pool.worker j))
          (Distinct-route f _ i.distinct j);
    started = i.started;
    placed = i.placed;
  }
  Step-IsSound (ends s before after name activate free e d) i = record {
    registered = i.registered;
    typed = i.typed;
    handled =
        targets-monitor_channel pvac name activate s.pool.worker.epics_service_manager ∙ i.handled;
    distinct = i.distinct;
    started =
        monitor_channel-IsStarted pvac name activate s.pool.worker.epics_service_manager (λ u h. cc)
          i.started;
    placed = rw free tt;
  }
  Step-IsSound (locks s free) i = record {
    registered = i.registered;
    typed = i.typed;
    handled = i.handled;
    distinct = i.distinct;
    started = i.started;
    placed = refl;
  }
  Step-IsSound (polls s behind ahead k c e) i =
      let w = s.pool.worker in
      let (now, handler, _, kept) =
        process_iterator-Delivers pvac value_of producer c w.epics_service_manager.targets
          (w.channel_topics_map, s.queue) i.handled in
      let place : w.epics_service_manager.channel_map ≡ behind ++ (k, c) ∷ ahead =
        subst (λ r. IsPlaced r w.epics_service_manager.channel_map) e i.placed in
      record {
        registered = i.registered;
        typed = i.typed;
        handled = handler;
        distinct = λ j. subst Distinct (sym (kept j)) (i.distinct j);
        started = replaced-IsStarted behind ahead k c _ now (
            subst
              (λ map.
                (j : String) (x : EpicsChannel pvac) → find j map ≡ some x → IsStartedAs pvac j x)
              place i.started);
        placed = sym (append_assoc behind _ ahead);
      }
  Step-IsSound (unlocks s behind e) i = record {
    registered = i.registered;
    typed = i.typed;
    handled = i.handled;
    distinct = i.distinct;
    started = i.started;
    placed = tt;
  }

  -- However the steps of the threads follow one another, as long as each task's block on the map
  -- runs alone and no call of `monitorChannel` throws, these stay true together, if they are at
  -- first: the registration of the workers is in place, every task that waits is an acquire
  -- command of its type, the worker's handler is the only one, no channel has a topic twice, every
  -- channel of the manager stands under its own name and has a subscription, and in a round the
  -- channels behind and ahead of the polling thread make up the manager's map.
  pub Run-IsSound :
      {s t : Program orm pvac B Q} {ls : List (Label pvac)}
      → Run orm pvac value_of json subscriber producer s ls t
      → IsSound s
      → IsSound t
  Run-IsSound stays i = i
  Run-IsSound (goes st r) i = Run-IsSound r (Step-IsSound st i)
