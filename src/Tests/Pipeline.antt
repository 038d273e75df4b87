-- ===== src/Tests/Pipeline.antt =====
-- One message on its way to the worker, on the stand-ins.
use ekg.Prelude.{ℕ, zero, suc, ◌≡◌, refl, String, true, none, List, [], ◌∷◌, String_key}
use ekg.Common.Outcome.{ok}
use ekg.Command.Json.{Value, Object, member, empty, if_contains}
use ekg.Command.Types.{Command, aquire_command, command_type_to_string}
use ekg.Consumer.{Element, JsonLibrary, Subscriber, handle_batch}
use ekg.Consumer.Described.{AllDescribed, handle_batch-AllDescribed}
use ekg.Node.Controller.{NodeController, registered}
use ekg.Node.Controller.Dispatch.{registered-IsRegistered}
use ekg.Node.Worker.{WorkerState, has}
use ekg.Node.Worker.Overlap.{Tasks, Runs}
use ekg.Node.Worker.Topics.{topics_of, last_wish, AllDistinct}
use ekg.Common.Log.{LogLine}
use ekg.Consumer.Thread.{consume}
use ekg.Gateway.Stream.{Fed, idle, quiet, batch, consume-last_wish}
use ekg.Gateway.Pipeline.{acquires, handler, both}
use ekg.Tests.{pvac, orm, serialize, element, monitor_base}

abbrev monitor_request : Object
monitor_request = member "command" (Value.text "monitor") (
    member "protocol" (Value.text "pva") (
      member "channel_name" (Value.text "channel:a")
        (member "activate" (Value.bool true) (member "dest_topic" (Value.text "out") empty))))

abbrev pub json : JsonLibrary
json = record { parse_text = λ text. (Value.object monitor_request, none); serialize = serialize }

abbrev pub monitor_channel_a : Command
monitor_channel_a = aquire_command monitor_base true "out"

-- Nothing in the first round, and then one message in each.
abbrev fed : ℕ → List Element × ℕ
fed zero = ([], 1)
fed (suc n) = (element "monitor" ∷ [], suc n)

abbrev pub subscriber : Subscriber ℕ
subscriber = record { get_msg = fed; commit = λ w. (ok tt, suc w) }

abbrev pub node : NodeController orm
node = record { worker_resolver = registered; node_configuration = []; tasks = []; log = [] }

described : AllDescribed json (element "monitor" ∷ []) (monitor_channel_a ∷ [])
unfolding if_contains command_type_to_string
described = ((monitor_request, (λ e. cc), refl, (((refl, refl, refl, refl), refl, refl))), tt)

pub one_monitor : (handle_batch json (element "monitor" ∷ [])).0 ≡ ok (monitor_channel_a ∷ [])
one_monitor =
    handle_batch-AllDescribed json (element "monitor" ∷ []) (monitor_channel_a ∷ []) described

two_rounds : Fed json subscriber 2 0 (monitor_channel_a ∷ []) 2
two_rounds =
    quiet refl (batch (element "monitor") [] (monitor_channel_a ∷ []) refl one_monitor refl idle)

pipeline_example :
    (log : List LogLine) × (node' : NodeController orm) × (consume json
        (both orm json subscriber)
        (handler orm json)
        2
        (0, node)
      ≡ (ok log, (2, node')))
    × (node'.tasks ≡ monitor_channel_a ∷ [])
    × ((w : WorkerState pvac ℕ) (t : Tasks pvac ℕ) (channel topic : String)
        → AllDistinct pvac w
        → Runs pvac
            (λ d s. Unit {0})
            (record { worker = w; in_flight = [] })
            (acquires (monitor_channel_a ∷ []))
            t
        → has topic (topics_of channel t.worker.channel_topics_map)
          ≡ last_wish channel topic
              (acquires (monitor_channel_a ∷ []))
              (has topic (topics_of channel w.channel_topics_map)))
pipeline_example =
    consume-last_wish orm pvac json subscriber node two_rounds registered-IsRegistered refl
