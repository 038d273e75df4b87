-- ===== src/Node/Worker.antt =====
-- controller/node/worker/AcquireCommandWorker.h and AcquireCommandWorker.cpp. One task of the
-- pool, and one delivery of events, is one step here.
pub mod Topics
pub mod Sync
pub mod Events
pub mod Overlap
use ekg.Prelude.{
  ◌≡◌, refl, String, Bool, true, false, Option, none, some, List, [], ◌∷◌, ◌++◌, any, map,
  String_key, ◌==◌, if◌then◌else◌, append_text, not,
}
use ekg.Prelude.StdMap.{StdMap, find, at, assign}
use ekg.Common.Outcome.{Outcome, ok, throws, undefined}
use ekg.Common.Log.{LogLine, line, info}
use ekg.Command.Types.{CommandType_key, Command, AquireFields, as_aquire, base, monitor}
use ekg.Epics.Channel.{Pvac, MonitorEvent, MonitorType, fail, cancel, disconnec, fresh_data}
use ekg.Epics.Manager.{Manager, monitor_channel, add_handler}

abbrev pub ChannelTopicsMap : Type 0
ChannelTopicsMap = StdMap String (List String)

pub record WorkerState (pvac : Pvac) (H : Type 0) : Type 0 where
  pub channel_topics_map : ChannelTopicsMap
  pub epics_service_manager : Manager pvac H
  pub log : List LogLine

-- std::find(...) != std::end(...)
abbrev pub has : String → List String → Bool
has topic topics = any (λ t. t == topic) topics

-- vec_ref.erase(std::find(...)): the first occurrence goes.
pub erase_first : String → List String → List String
erase_first topic [] = []
erase_first topic (t ∷ ts) = let rest = erase_first topic ts in if t == topic then ts else t ∷ rest

-- vec_ref.size() != 0
abbrev pub is_filled : List String → Bool
is_filled [] = false
is_filled (t ∷ ts) = true

-- The vector of the channel after the command.
unfoldable pub update_topics : Bool → String → List String → List String
unfolding erase_first
update_topics true topic topics = if has topic topics then topics else topics ++ topic ∷ []
update_topics false topic topics = if has topic topics then erase_first topic topics else topics

-- The log line, where the vector changes.
pub log_update : AquireFields → List String → List LogLine
log_update c topics =
    let found = has c.destination_topic topics in
    let text = λ (verb : String).
      append_text verb
        (append_text c.channel_name (append_text " for topic: " c.destination_topic)) in
    if c.activate
    then (if found then [] else line (text "Activate monitor on: ") info ∷ [])
    else (if found then line (text "Deactivate monitor on: ") info ∷ [] else [])

module _ (pvac : Pvac) {H : Type 0} where
  -- The block of `acquireManagement` on the map: the value of `activate` behind it, and the state.
  unfoldable pub update_map : AquireFields → WorkerState pvac H → Bool × WorkerState pvac H
  unfolding update_topics log_update
  update_map c w =
      let (topics, map') = at c.channel_name [] w.channel_topics_map in
      let topics' = update_topics c.activate c.destination_topic topics in
      (
        is_filled topics',
        record w {
          channel_topics_map = assign c.channel_name topics' map';
          log = w.log ++ log_update c topics;
        },
      )

  -- The call of `monitorChannel` behind that block.
  unfoldable pub call_monitor :
      String → Bool → WorkerState pvac H → Outcome (Unit {0}) × WorkerState pvac H
  call_monitor name activate w =
      let (r, m) = monitor_channel pvac name activate w.epics_service_manager in
      (r, record w { epics_service_manager = m })

  acquire_fields : AquireFields → WorkerState pvac H → Outcome (Unit {0}) × WorkerState pvac H
  unfolding update_map call_monitor
  acquire_fields c w =
      let (activate, w') = update_map c w in call_monitor c.channel_name activate w'

  acquire_cast : Outcome AquireFields → WorkerState pvac H → Outcome (Unit {0}) × WorkerState pvac H
  unfolding acquire_fields
  acquire_cast (ok c) w = acquire_fields c w
  acquire_cast (throws e) w = (throws e, w)
  acquire_cast (undefined u) w = (undefined u, w)

  -- acquireManagement, the task that `submitCommand` pushes to the pool.
  unfoldable pub acquire_management :
      Command → WorkerState pvac H → Outcome (Unit {0}) × WorkerState pvac H
  unfolding acquire_cast as_aquire
  acquire_management command w =
      let rest = acquire_cast (as_aquire command) w in
      if (base command).type == monitor then rest else (undefined "assertion failed", w)

-- MonitorMessage; its request type is "monitoring".
pub record MonitorMessage : Type 0 where
  pub request_type : String
  pub distribution_key : String
  pub queue : String
  pub message : String

unfoldable pub monitor_message : String → String → String → MonitorMessage
monitor_message key topic text = record {
  request_type = "monitoring";
  distribution_key = key;
  queue = topic;
  message = text;
}

-- `value_of` is the text of the sub-field "value" of an update.
module _ (pvac : Pvac) (value_of : Option (Pvac.Structure pvac) → String) where
  -- The body of the loop of `epicsMonitorEvent`: the messages that are pushed, and the map, to
  -- which operator[] adds a channel that it does not hold.
  monitor_event : MonitorEvent pvac → ChannelTopicsMap → List MonitorMessage × ChannelTopicsMap
  unfolding monitor_message
  monitor_event e m = elim e.type [
    | fresh_data ↦
        let (topics, m') = at e.channel_name [] m in
        (map (λ topic. monitor_message e.channel_name topic (value_of e.payload)) topics, m')
    | _ ↦ ([], m)
  ]

  unfoldable pub epics_monitor_event :
      List (MonitorEvent pvac) → ChannelTopicsMap → List MonitorMessage × ChannelTopicsMap
  unfolding monitor_event
  epics_monitor_event [] m = ([], m)
  epics_monitor_event (e ∷ es) m =
      let (sent, m') = monitor_event e m in
      let (later, m'') = epics_monitor_event es m' in (sent ++ later, m'')

-- The constructor registers the handler of the events with the manager.
module _ (pvac : Pvac) {H W : Type 0} (is_live : W → H → Bool)
    (call : H → List (MonitorEvent pvac) → W → W) where
  unfoldable pub construct : H → Manager pvac H → WorkerState pvac H
  construct handler_token manager = record {
    channel_topics_map = [];
    epics_service_manager = add_handler pvac is_live call handler_token manager;
    log = [];
  }
