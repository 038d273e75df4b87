-- ===== src/Tests/System.antt =====
-- The whole program on the stand-ins: a request arrives, its task begins and ends, and the channel
-- is polled.
use ekg.Prelude.{ℕ, ◌≡◌, refl, String, true, none, some, List, [], ◌∷◌, ◌++◌, All, String_key, inl}
use ekg.Prelude.StdMap.{find, place, replace, assign, at}
use ekg.Common.Log.{LogLine}
use ekg.Common.Outcome.{ok}
use ekg.Command.Types.{Command, as_aquire}
use ekg.Consumer.{handle_batch, consume_round, call_handler}
use ekg.Consumer.Batches.{consume_round_returned}
use ekg.Epics.Channel.{EpicsChannel, monitor, create, connect, start_monitor}
use ekg.Epics.Manager.{add_channel, monitor_channel, poll_channel, task_round}
use ekg.Gateway.Delivery.{call, is_live}
use ekg.Gateway.Pipeline.{handler, both, handler_takes, acquires}
use ekg.Gateway.System.{
  Program, Label, took, began, ended, locked, polled, poll_next, start_task, takes, begins, ends,
  locks, polls, Run, stays, goes,
}
use ekg.Gateway.System.Invariant.{IsSound, Run-IsSound}
use ekg.Gateway.System.Asked.{IsAsked, Run-IsAsked}
use ekg.Gateway.System.Sends.{taken, sends, routes}
use ekg.Gateway.System.Whole.{IsBehind, polls_of, messages_of, Run-task_round}
use ekg.Gateway.System.Steady.{IsOrderly, AreOrderly, Run-IsSteady}
use ekg.Gateway.System.Wished.{Run-last_wish}
use ekg.Pubsub.Publisher.Queueing.{produce_all}
use ekg.Node.Controller.{NodeController}
use ekg.Node.Controller.Dispatch.{submit_command-Takes, registered-IsRegistered, aquire_fields}
use ekg.Node.Worker.{has, MonitorMessage, monitor_message, update_topics, update_map, call_monitor}
use ekg.Node.Worker.Events.{all_messages}
use ekg.Node.Worker.Overlap.{begin, end}
use ekg.Node.Worker.Overlap.Routes.{route_all}
use ekg.Node.Worker.Overlap.Serial.{IsSteady}
use ekg.Node.Worker.Topics.{last_wish}
use ekg.Tests.{pvac, orm, serialize, element, monitor_base, producer}
use ekg.Tests.Delivery.{value_of}
use ekg.Tests.Pipeline.{json, subscriber, node, monitor_channel_a, one_monitor}

abbrev idle : Program orm pvac ℕ (List MonitorMessage)
idle = record {
  broker = 1;
  node = node;
  pool = record {
    worker = record {
      channel_topics_map = [];
      epics_service_manager = record { channel_map = []; targets = tt ∷ [] };
      log = [];
    };
    in_flight = [];
  };
  round = none;
  queue = [];
}

idle-IsSound : IsSound orm pvac value_of json subscriber producer idle
unfolding find
idle-IsSound = record {
  registered = registered-IsRegistered;
  typed = tt;
  handled = refl;
  distinct = λ j. tt;
  started = λ j c h. cc;
  placed = tt;
}

abbrev one : List Command
one = monitor_channel_a ∷ []

abbrev filled : NodeController orm
filled = (submit_command-Takes orm serialize one node (refl, tt) registered-IsRegistered).0

abbrev log : List LogLine
log = (handle_batch json (element "monitor" ∷ [])).1

-- The round of the command controller.
round_taken :
    consume_round json (both orm json subscriber) (handler orm json) (1, node)
    ≡ (ok log, (2, filled))
unfolding call_handler
round_taken =
    consume_round_returned json (both orm json subscriber) (handler orm json) (1, node) (1, node)
      (1, filled) (2, filled) (element "monitor") [] one refl one_monitor
      (handler_takes orm json one 1 node filled
        (submit_command-Takes orm serialize one node (refl, tt) registered-IsRegistered).1)
      refl

abbrev taken_one : Program orm pvac ℕ (List MonitorMessage)
taken_one = record idle { broker = 2; node = filled }

abbrev begun_one : Program orm pvac ℕ (List MonitorMessage)
begun_one =
    start_task orm pvac value_of json subscriber producer [] (aquire_fields monitor_base true "out")
      [] taken_one

abbrev ended_one : Program orm pvac ℕ (List MonitorMessage)
ended_one = record begun_one { pool = end pvac "channel:a" true [] begun_one.pool }

abbrev locked_one : Program orm pvac ℕ (List MonitorMessage)
locked_one = record ended_one {
  round = some ([], ended_one.pool.worker.epics_service_manager.channel_map);
}

abbrev watched : EpicsChannel pvac
watched = record {
  channel_name = "channel:a";
  address = "";
  provider = "pva";
  channel = some "channel:a";
  mon = some (1 ∷ 2 ∷ []);
}

abbrev polled_one : Program orm pvac ℕ (List MonitorMessage)
polled_one =
    poll_next orm pvac value_of json subscriber producer [] "channel:a" watched [] locked_one

abbrev in_front : List (Label pvac)
in_front = took one ∷ began monitor_channel_a ∷ ended "channel:a" ∷ locked ∷ []

abbrev whole : List (Label pvac)
whole = in_front ++ polled (poll_channel pvac watched).0 ∷ []

whole_run : Run orm pvac value_of json subscriber producer idle whole polled_one
unfolding start_task begin update_map end call_monitor monitor_channel add_channel create connect
    start_monitor find place replace assign at as_aquire
whole_run = goes (takes idle one log 2 filled one_monitor round_taken) (
    goes
      (begins taken_one [] [] monitor_channel_a (aquire_fields monitor_base true "out")
        (submit_command-Takes orm serialize one node (refl, tt) registered-IsRegistered).2 refl
        refl)
      (goes (ends begun_one [] [] "channel:a" true refl refl refl) (
        goes (locks ended_one refl)
          (goes (polls locked_one [] [] "channel:a" watched refl) stays))))

whole-IsSound_example : IsSound orm pvac value_of json subscriber producer polled_one
whole-IsSound_example =
    Run-IsSound orm pvac value_of json subscriber producer whole_run idle-IsSound

whole_run-AreOrderly : AreOrderly orm pvac value_of json subscriber producer whole_run
unfolding AreOrderly IsOrderly whole_run start_task begin update_map end call_monitor
    monitor_channel add_channel create connect start_monitor find place replace assign at
whole_run-AreOrderly = (tt, (refl, (tt, (tt, (tt, tt)))))

idle-IsSteady : IsSteady pvac idle.pool
unfolding find
idle-IsSteady j = inl (refl, refl)

whole-IsSteady_example : IsSteady pvac polled_one.pool
whole-IsSteady_example =
    Run-IsSteady orm pvac value_of json subscriber producer whole_run whole_run-AreOrderly
      idle-IsSound idle-IsSteady

abbrev sent : MonitorMessage
sent = monitor_message "channel:a" "out" "1"

-- No channel has a topic.
abbrev nowhere : String → List String
nowhere j = []

nowhere_routes :
    (channel : String) → routes orm pvac value_of json subscriber producer idle channel ≡ []
unfolding find
nowhere_routes channel = refl

whole-IsAsked_example :
    (polled_one.queue
      ≡ produce_all producer
          (sends pvac value_of (routes orm pvac value_of json subscriber producer idle) whole)
          [])
    × All
        (IsAsked (taken whole))
        (sends pvac value_of (routes orm pvac value_of json subscriber producer idle) whole)
whole-IsAsked_example =
    Run-IsAsked orm pvac value_of json subscriber producer whole_run idle-IsSound refl
      nowhere_routes

system_wish_example :
    let f = routes orm pvac value_of json subscriber producer idle in
    let now = route_all (acquires one) f in
    let ms = all_messages pvac value_of now (poll_channel pvac watched).0 in
    (polled_one.queue ≡ produce_all producer (sends pvac value_of f in_front ++ (ms ++ [])) [])
    × ((channel topic : String)
        → has topic (now channel) ≡ last_wish channel topic (acquires one) (has topic (f channel)))
    × All
        (λ m.
          last_wish m.distribution_key m.queue (acquires one) (has m.queue (f m.distribution_key))
          ≡ true)
        ms
system_wish_example =
    Run-last_wish orm pvac value_of json subscriber producer in_front []
      (poll_channel pvac watched).0 whole_run idle-IsSound

system_round_example :
    (t : Program orm pvac ℕ (List MonitorMessage)) × (Run orm pvac value_of json subscriber producer
      ended_one
      (locked
        ∷ polls_of orm pvac value_of json subscriber producer
            ended_one.pool.worker.epics_service_manager.channel_map)
      t)
    × (t.queue
        ≡ produce_all producer
            (messages_of orm pvac value_of json subscriber producer
              (routes orm pvac value_of json subscriber producer ended_one)
              ended_one.pool.worker.epics_service_manager.channel_map)
            [])
    × (IsBehind orm pvac value_of json subscriber producer
        (task_round pvac
          (is_live pvac value_of producer)
          (call pvac value_of producer)
          ended_one.pool.worker.epics_service_manager
          (ended_one.pool.worker.channel_topics_map, []))
        ended_one
        t)
unfolding start_task begin end call_monitor monitor_channel add_channel create connect start_monitor
    find place replace assign at
system_round_example = Run-task_round orm pvac value_of json subscriber producer ended_one refl refl

-- Both updates reach the topic.
both_sent : sends pvac value_of nowhere whole ≡ sent ∷ sent ∷ []
unfolding update_topics monitor_message poll_channel monitor
both_sent = refl
