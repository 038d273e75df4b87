-- ===== src/Gateway/System/Whole.antt =====
-- A round of the polling thread that no other step interrupts.
use ekg.Prelude.{
  ◌≡◌, refl, sym, ap, ◌∙◌, String, Option, none, some, List, [], ◌∷◌, ◌++◌, append_assoc,
}
use ekg.Prelude.StdMap.{StdMap}
use ekg.Consumer.{JsonLibrary, Subscriber}
use ekg.Data.Orm.{Orm}
use ekg.Epics.Channel.{Pvac, EpicsChannel}
use ekg.Epics.Manager.{Manager, poll_channel, process_all, task_round}
use ekg.Gateway.Delivery.{call, is_live, World}
use ekg.Gateway.System.{
  Program, Label, locked, unlocked, polled, poll_next, locks, polls, unlocks, Run, stays, goes,
}
use ekg.Gateway.System.Sends.{Routes, routes, sends, HasHandler, Run-sends}
use ekg.Node.Worker.{MonitorMessage}
use ekg.Node.Worker.Events.{all_messages}
use ekg.Pubsub.Publisher.{Producer}
use ekg.Pubsub.Publisher.Queueing.{produce_all}

module _ (orm : Orm) (pvac : Pvac) (value_of : Option (Pvac.Structure pvac) → String)
    (json : JsonLibrary) {B Q : Type 0} (subscriber : Subscriber B) (producer : Producer Q) where
  abbrev manager_of : Program orm pvac B Q → Manager pvac (Unit {0})
  manager_of s = s.pool.worker.epics_service_manager

  abbrev world_of : Program orm pvac B Q → World pvac value_of producer
  world_of s = (s.pool.worker.channel_topics_map, s.queue)

  -- The program where a round has left the manager and its world so, and nothing else changed.
  abbrev pub IsBehind :
      Manager pvac (Unit {0}) × World pvac value_of producer
      → Program orm pvac B Q
      → Program orm pvac B Q
      → Type 0
  IsBehind r s t =
      (t.pool.worker.epics_service_manager ≡ r.0)
      × ((t.pool.worker.channel_topics_map, t.queue) ≡ r.1)
      × (t.pool.worker.log ≡ s.pool.worker.log)
      × (t.broker ≡ s.broker)
      × (t.node ≡ s.node)
      × (t.pool.in_flight ≡ s.pool.in_flight)
      × (t.round ≡ none)

  -- The map of the manager and the world, behind the channels ahead.
  behind_all :
      StdMap String (EpicsChannel pvac)
      → StdMap String (EpicsChannel pvac)
      → Program orm pvac B Q
      → Manager pvac (Unit {0}) × World pvac value_of producer
  behind_all behind ahead s =
      let (map', targets', w') =
        process_all pvac (is_live pvac value_of producer) (call pvac value_of producer) ahead
          (manager_of s).targets (world_of s) in
      (record { channel_map = behind ++ map'; targets = targets' }, w')

  -- What the rest of a round tells: each channel is polled once, in order, and the lock is given
  -- back; no other step comes in between.
  abbrev pub polls_of : StdMap String (EpicsChannel pvac) → List (Label pvac)
  polls_of [] = unlocked ∷ []
  polls_of ((k, c) ∷ ahead) = polled (poll_channel pvac c).0 ∷ polls_of ahead

  -- The messages of a round, by the topics and the updates of the channels in order.
  abbrev pub messages_of : Routes → StdMap String (EpicsChannel pvac) → List MonitorMessage
  messages_of f [] = []
  messages_of f ((k, c) ∷ ahead) =
      all_messages pvac value_of f (poll_channel pvac c).0 ++ messages_of f ahead

  sends-polls_of :
      (f : Routes) (ahead : StdMap String (EpicsChannel pvac))
      → sends pvac value_of f (polls_of ahead) ≡ messages_of f ahead
  sends-polls_of f [] = refl
  sends-polls_of f ((k, c) ∷ ahead) =
      ap (λ ms. all_messages pvac value_of f (poll_channel pvac c).0 ++ ms) (sends-polls_of f ahead)

  polls_process_all :
      (ahead behind : StdMap String (EpicsChannel pvac)) (s : Program orm pvac B Q)
      → s.round ≡ some (behind, ahead)
      → (manager_of s).channel_map ≡ behind ++ ahead
      → (t : Program orm pvac B Q) × (Run orm pvac value_of json subscriber producer s
          (polls_of ahead)
          t)
        × (IsBehind (behind_all behind ahead s) s t)
  unfolding behind_all poll_next process_all
  polls_process_all [] behind s e m = (
    record s { round = none },
    goes (unlocks s behind e) stays,
    (
      ap (λ map. record { channel_map = map; targets = (manager_of s).targets }) m,
      refl,
      refl,
      refl,
      refl,
      refl,
      refl,
    ),
  )
  polls_process_all ((k, c) ∷ ahead) behind s e m =
      let s' = poll_next orm pvac value_of json subscriber producer behind k c ahead s in
      let c' = (poll_channel pvac c).1 in
      let (t, r, done) =
        polls_process_all ahead (behind ++ (k, c') ∷ []) s' refl
          (sym (append_assoc behind ((k, c') ∷ []) ahead)) in
      (
        t,
        goes (polls s behind ahead k c e) r,
        (
          done.0
              ∙ ap
                  (λ map. record {
                    channel_map = map;
                    targets = (behind_all (behind ++ (k, c') ∷ []) ahead s').0.targets;
                  })
                  (append_assoc behind ((k, c') ∷ []) _),
          done.1,
          done.2,
          done.3,
          done.4,
          done.5,
          done.6,
        ),
      )

  -- A round of the polling thread that no other step interrupts: if the lock is free and the
  -- worker's handler is the only one, the thread can take the lock, poll each channel of the map
  -- once in order and give the lock back. Behind that it has handed to the producer, for each
  -- channel in order, the messages of its updates to the topics of the channel, and no others; the
  -- manager, the worker's map and the producer are as `task_round` leaves them, and nothing else
  -- has changed.
  pub Run-task_round :
      (s : Program orm pvac B Q)
      → s.round ≡ none
      → HasHandler orm pvac value_of json subscriber producer s
      → (t : Program orm pvac B Q) × (Run orm pvac value_of json subscriber producer s
          (locked ∷ polls_of (manager_of s).channel_map)
          t)
        × (t.queue
            ≡ produce_all producer
                (messages_of
                  (routes orm pvac value_of json subscriber producer s)
                  (manager_of s).channel_map)
                s.queue)
        × (IsBehind
            (task_round pvac
              (is_live pvac value_of producer)
              (call pvac value_of producer)
              (manager_of s)
              (world_of s))
            s
            t)
  unfolding task_round behind_all
  Run-task_round s free one =
      let map = (manager_of s).channel_map in
      let f = routes orm pvac value_of json subscriber producer s in
      let (t, r, done) = polls_process_all map [] (record s { round = some ([], map) }) refl refl in
      let run = goes (locks s free) r in
      (
        t,
        run,
        (Run-sends orm pvac value_of json subscriber producer run one).0
            ∙ ap (λ ms. produce_all producer ms s.queue) (sends-polls_of f map),
        done,
      )
