-- ===== src/Gateway/System.antt =====
-- The whole program as one step relation: the thread of the command controller, the tasks of the
-- pool and the polling thread, in any order. Where one thread holds a lock, the steps that need it
-- wait: `monitorChannel` during a round of the polling thread. A round is a step for each channel,
-- so that tasks may change the topics between two of them. The block of `acquireManagement` on the
-- map is one step: these are the runs in which no two tasks are in that block at once. The source
-- does not enforce this, as `Node.Worker.Overlap.Block` shows.
pub mod Takes
pub mod Polls
pub mod Sends
pub mod Invariant
pub mod Conserved
pub mod Asked
pub mod Wished
pub mod Whole
pub mod Drains
pub mod Steady
use ekg.Prelude.{◌≡◌, refl, String, Bool, Option, none, some, List, [], ◌∷◌, ◌++◌}
use ekg.Prelude.StdMap.{StdMap}
use ekg.Common.Log.{LogLine}
use ekg.Common.Outcome.{ok}
use ekg.Command.Types.{Command, AquireFields, as_aquire, base, monitor}
use ekg.Consumer.{JsonLibrary, Subscriber, handle_batch, consume_round}
use ekg.Data.Orm.{Orm}
use ekg.Epics.Channel.{Pvac, MonitorEvent, EpicsChannel}
use ekg.Epics.Manager.{Manager, poll_channel, process_iterator}
use ekg.Gateway.Delivery.{call, is_live}
use ekg.Gateway.Pipeline.{handler, both}
use ekg.Node.Controller.{NodeController}
use ekg.Node.Worker.{WorkerState, call_monitor}
use ekg.Node.Worker.Overlap.{Tasks, Returns, begin, end}
use ekg.Pubsub.Publisher.{Producer}

-- The channels that the polling thread has behind it in its round, and those ahead.
abbrev pub Round : Pvac → Type 0
Round pvac = StdMap String (EpicsChannel pvac) × StdMap String (EpicsChannel pvac)

-- `broker` is what the subscriber acts on, and `queue` what the producer does; `round` is `none`
-- while the polling thread sleeps. The tasks that were pushed and have not begun are those of the
-- node controller.
pub record Program (orm : Orm) (pvac : Pvac) (B Q : Type 0) : Type 0 where
  pub broker : B
  pub node : NodeController orm
  pub pool : Tasks pvac (Unit {0})
  pub round : Option (Round pvac)
  pub queue : Q

-- What a step tells of itself.
pub data Label (pvac : Pvac) : Type 0 where
  took : List Command → Label pvac
  began : Command → Label pvac
  ended : String → Label pvac
  locked unlocked : Label pvac
  polled : List (MonitorEvent pvac) → Label pvac

module _ (orm : Orm) (pvac : Pvac) (value_of : Option (Pvac.Structure pvac) → String)
    (json : JsonLibrary) {B Q : Type 0} (subscriber : Subscriber B) (producer : Producer Q) where
  -- The next channel of a round, whose events are broadcast in the world of the worker's map and
  -- the producer.
  unfoldable pub poll_next :
      StdMap String (EpicsChannel pvac)
      → String
      → EpicsChannel pvac
      → StdMap String (EpicsChannel pvac)
      → Program orm pvac B Q
      → Program orm pvac B Q
  unfolding process_iterator
  poll_next behind k c ahead s =
      let w = s.pool.worker in
      let (c', targets', (topics', queue')) =
        process_iterator pvac (is_live pvac value_of producer) (call pvac value_of producer) c
          w.epics_service_manager.targets (w.channel_topics_map, s.queue) in
      record s {
        pool = record {
          worker = record {
            channel_topics_map = topics';
            epics_service_manager = record {
              channel_map = behind ++ (k, c') ∷ ahead;
              targets = targets';
            };
            log = w.log;
          };
          in_flight = s.pool.in_flight;
        };
        round = some (behind ++ (k, c') ∷ [], ahead);
        queue = queue';
      }

  -- A task that begins is no longer among those that wait; any of these may be the next.
  unfoldable pub start_task :
      List Command → AquireFields → List Command → Program orm pvac B Q → Program orm pvac B Q
  unfolding begin
  start_task before f after s = record s {
    node = record s.node { tasks = before ++ after };
    pool = begin pvac f s.pool;
  }

  pub data Step : Program orm pvac B Q → Label pvac → Program orm pvac B Q → Type 0 where
    -- One round of `consume`, whose messages give these commands.
    takes :
        (s : Program orm pvac B Q) (cs : List Command) (log : List LogLine) (b' : B)
        (n' : NodeController orm)
        → (handle_batch json (subscriber.get_msg s.broker).0).0 ≡ ok cs
        → consume_round json (both orm json subscriber) (handler orm json) (s.broker, s.node)
          ≡ (ok log, (b', n'))
        → Step s (took cs) (record s { broker = b'; node = n' })
    -- A task begins: its assertion and its block on the map.
    begins :
        (s : Program orm pvac B Q) (before after : List Command) (c : Command) (f : AquireFields)
        → s.node.tasks ≡ before ++ c ∷ after
        → (base c).type ≡ monitor
        → as_aquire c ≡ ok f
        → Step s (began c) (start_task before f after s)
    -- A task ends: its call of `monitorChannel`, which needs the lock of the manager, returns. The
    -- worker of the pool catches nothing: behind a call that throws there is no step, since the
    -- process is terminated.
    ends :
        (s : Program orm pvac B Q) (before after : List (String × Bool)) (name : String)
        (activate : Bool)
        → s.round ≡ none
        → s.pool.in_flight ≡ before ++ (name, activate) ∷ after
        → Returns (call_monitor pvac name activate s.pool.worker).0
        → Step s (ended name) (record s { pool = end pvac name activate (before ++ after) s.pool })
    -- The polling thread takes the lock, polls the channels in turn, and gives the lock back.
    locks :
        (s : Program orm pvac B Q)
        → s.round ≡ none
        → Step s locked
            (record s { round = some ([], s.pool.worker.epics_service_manager.channel_map) })
    polls :
        (s : Program orm pvac B Q) (behind ahead : StdMap String (EpicsChannel pvac)) (k : String)
        (c : EpicsChannel pvac)
        → s.round ≡ some (behind, (k, c) ∷ ahead)
        → Step s (polled (poll_channel pvac c).0) (poll_next behind k c ahead s)
    unlocks :
        (s : Program orm pvac B Q) (behind : StdMap String (EpicsChannel pvac))
        → s.round ≡ some (behind, [])
        → Step s unlocked (record s { round = none })

  -- Any number of steps, with what they tell, oldest first.
  pub data Run : Program orm pvac B Q → List (Label pvac) → Program orm pvac B Q → Type 0 where
    stays : {s : Program orm pvac B Q} → Run s [] s
    goes :
        {s t u : Program orm pvac B Q} {l : Label pvac} {ls : List (Label pvac)}
        → Step s l t
        → Run t ls u
        → Run s (l ∷ ls) u
