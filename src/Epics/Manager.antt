-- ===== src/Epics/Manager.antt =====
-- service/epics/EpicsServiceManager.h and EpicsServiceManager.cpp. Every method holds
-- `channel_map_mutex`, so a call is one step; `task_round` is one round of the polling thread.
pub mod Channels
pub mod Rounds
pub mod Invariant
pub mod Targets
pub mod Total
use mathlib.Core.Option.{get_or}
use ekg.Prelude.{
  ℕ, zero, suc, ◌≡◌, refl, String, Bool, true, false, Option, none, some, List, [], ◌∷◌, length,
  if◌then◌else◌, String_key,
}
use ekg.Prelude.StdMap.{StdMap, find, assign, erase, keys}
use ekg.Common.Outcome.{
  Exception, runtime_error, std_error, foreign, Outcome, ok, throws, undefined,
}
use ekg.Common.Broadcaster.{purge, broadcast, register_handler}
use ekg.Epics.Channel.{Pvac, MonitorEvent, EpicsChannel, create, connect, start_monitor, monitor}

-- H is the type of the handlers.
pub record Manager (pvac : Pvac) (H : Type 0) : Type 0 where
  pub channel_map : StdMap String (EpicsChannel pvac)
  pub targets : List H

-- What leaves `addChannel` when an exception is caught there: `throw ex` copies the caught
-- reference as a plain std::exception.
unfoldable pub rethrow : Exception → Exception
rethrow foreign = runtime_error "Unknown error during channel registration"
rethrow _ = std_error "std::exception"

-- A channel that was never started has no subscription to poll; `Invariant` shows that the map
-- holds none.
unfoldable pub poll_channel :
    (pvac : Pvac) → EpicsChannel pvac → List (MonitorEvent pvac) × EpicsChannel pvac
poll_channel pvac c = elim c.mon [
  | none ↦ ([], c)
  | some s ↦ let (es, s') = monitor pvac c.channel_name s in (es, record c { mon = some s' })
]

module _ (pvac : Pvac) {H : Type 0} where
  -- The constructor, which also starts the thread of `task`.
  abbrev pub initial : Manager pvac H
  initial = record { channel_map = []; targets = [] }

  abbrev with_map : Manager pvac H → StdMap String (EpicsChannel pvac) → Manager pvac H
  with_map m map = record m { channel_map = map }

  -- The catch clauses: the entry is erased and an exception goes on. Undefined behaviour stays.
  pub after_failure :
      {A : Type 0} → String → Manager pvac H → Outcome A → Outcome (Unit {0}) × Manager pvac H
  after_failure name m (ok a) = (ok tt, m)
  after_failure name m (throws e) = (throws (rethrow e), with_map m (erase name m.channel_map))
  after_failure name m (undefined u) = (undefined u, m)

  started_step :
      String → Manager pvac H → Outcome (EpicsChannel pvac) → Outcome (Unit {0}) × Manager pvac H
  unfolding after_failure
  started_step name m (ok c) = (ok tt, with_map m (assign name c m.channel_map))
  started_step name m failed = after_failure name m failed

  connected_step :
      String → Manager pvac H → Outcome (EpicsChannel pvac) → Outcome (Unit {0}) × Manager pvac H
  unfolding started_step after_failure
  connected_step name m (ok c) =
      started_step name (with_map m (assign name c m.channel_map)) (start_monitor pvac c)
  connected_step name m failed = after_failure name m failed

  created_step :
      String → Manager pvac H → Outcome (EpicsChannel pvac) → Outcome (Unit {0}) × Manager pvac H
  unfolding connected_step after_failure
  created_step name m (ok c) =
      connected_step name (with_map m (assign name c m.channel_map)) (connect pvac c)
  created_step name m failed = after_failure name m failed

  unfoldable pub add_channel :
      String → String → Manager pvac H → Outcome (Unit {0}) × Manager pvac H
  unfolding created_step
  add_channel name protocol m = elim (find name m.channel_map) [
    | none ↦ created_step name m (create pvac protocol name)
    | some c ↦ (ok tt, m)
  ]

  unfoldable pub remove_channel : String → Manager pvac H → Manager pvac H
  remove_channel name m = with_map m (erase name m.channel_map)

  -- The default protocol of `addChannel` is "pva".
  unfoldable pub monitor_channel :
      String → Bool → Manager pvac H → Outcome (Unit {0}) × Manager pvac H
  monitor_channel name activate m =
      if activate then add_channel name "pva" m else (ok tt, remove_channel name m)

  unfoldable pub get_monitored_channels : Manager pvac H → List String
  get_monitored_channels m = keys m.channel_map

  unfoldable pub get_channel_monitored_size : Manager pvac H → ℕ
  get_channel_monitored_size m = length m.channel_map

  module _ {W : Type 0} (is_live : W → H → Bool) (call : H → List (MonitorEvent pvac) → W → W) where
    pub add_handler : H → Manager pvac H → Manager pvac H
    add_handler h m = record m { targets = register_handler is_live call h m.targets }

    -- Expired handlers are dropped before they are counted.
    pub get_handler_size : W → Manager pvac H → ℕ × Manager pvac H
    get_handler_size w m =
        let targets' = purge is_live call w m.targets in
        (length targets', record m { targets = targets' })

    -- The events of one channel, for the handlers.
    notify : List (MonitorEvent pvac) → List H → W → List H × W
    notify [] targets w = (targets, w)
    notify (e ∷ es) [] w = ([], w)
    notify (e ∷ es) (h ∷ hs) w = broadcast is_live call (e ∷ es) (h ∷ hs) w

    unfoldable pub process_iterator :
        EpicsChannel pvac → List H → W → EpicsChannel pvac × List H × W
    unfolding poll_channel notify
    process_iterator c targets w =
        let (es, c') = poll_channel pvac c in
        let (targets', w') = notify es targets w in (c', targets', w')

    unfoldable pub process_all :
        StdMap String (EpicsChannel pvac)
        → List H
        → W
        → StdMap String (EpicsChannel pvac) × List H × W
    unfolding process_iterator
    process_all [] targets w = ([], targets, w)
    process_all ((k, c) ∷ rest) targets w =
        let (c', targets', w') = process_iterator c targets w in
        let (rest', targets'', w'') = process_all rest targets' w' in
        ((k, c') ∷ rest', targets'', w'')

    -- One round of `task`, under the lock.
    unfoldable pub task_round : Manager pvac H → W → Manager pvac H × W
    unfolding process_all
    task_round m w =
        let (map', targets', w') = process_all m.channel_map m.targets w in
        (record { channel_map = map'; targets = targets' }, w')

    -- The loop of `task`: the rounds that begin before `run` is false.
    unfoldable pub task : ℕ → Manager pvac H → W → Manager pvac H × W
    unfolding task_round
    task zero m w = (m, w)
    task (suc rounds) m w = let (m', w') = task_round m w in task rounds m' w'
