-- ===== src/Tests/Kafka.antt =====
-- The publisher and the subscriber on a producer and a consumer over lists.
use ekg.Prelude.{
  String_key, ℕ, ◌≡◌, ◌≢◌, ◌≤◌, refl, String, Bool, true, false, none, some, List, [], ◌∷◌, ◌++◌,
  ◌⊎◌, map, length, arith,
}
use ekg.Prelude.StdMap.{find}
use ekg.Common.Outcome.{ok, undefined, throws, std_error}
use ekg.Consumer.{Element}
use ekg.Node.Worker.{MonitorMessage}
use ekg.Pubsub.Publisher.{
  Producer, push_messages, dr_cb, set_call_back_for_req_type, on_error, on_sent, not_persisted,
  Status, possibly_persisted, persisted, Callbacks,
}
use ekg.Pubsub.Publisher.Queueing.{produce_all, push_messages_cases, push_messages_retry}
use ekg.Pubsub.Publisher.Reports.{callback_of, dr_cb-callback_of, dr_cb_blocks}
use ekg.Pubsub.Subscriber.{get_msg, element_of}
use ekg.Pubsub.Subscriber.Fetching.{AlwaysAnswers, get_msg_returns}
use ekg.Pubsub.Setup.{constructed, deinit}
use ekg.Pubsub.Setup.AutoPoll.{set_all, deinit-last_call}
use ekg.Tests.{message, producer, consumer, kafka_message}

abbrev three : List MonitorMessage
three = message "1" ∷ message "2" ∷ message "3" ∷ []

-- There is room for two.
push_messages_example :
    (push_messages producer (map some three) [] ≡ (ok (true, []), produce_all producer three []))
    ⊎ ((before : List MonitorMessage) × (m : MonitorMessage) × (after : List MonitorMessage)
        × (three ≡ before ++ m ∷ after)
        × (((Producer.produce producer) m (produce_all producer before [])).0 ≡ false)
        × (push_messages producer (map some three) [] ≡ (
          ok (false, none ∷ map some after),
          ((Producer.produce producer) m (produce_all producer before [])).1,
        )))
push_messages_example = push_messages_cases producer three []

retry_example : (push_messages producer (none ∷ []) []).0 ≡ undefined "null message"
unfolding push_messages
retry_example =
    push_messages_retry producer three [] (message "1" ∷ message "2" ∷ []) [] (none ∷ []) refl

-- Callbacks are named by numbers.
abbrev callbacks : Callbacks ℕ
callbacks = ("monitoring", some 3) ∷ []

dr_cb_example :
    ((callback : ℕ)
      → callback_of "monitoring" callbacks ≡ some callback
      → ((dr_cb (some (message "1")) persisted callbacks).0 ≡ some (callback, on_sent, message "1"))
        × ((dr_cb (some (message "1")) not_persisted callbacks).0
            ≡ some (callback, on_error, message "1"))
        × ((dr_cb (some (message "1")) possibly_persisted callbacks).0
            ≡ some (callback, on_error, message "1")))
    × (callback_of "monitoring" callbacks ≡ none
        → (status : Status) → (dr_cb (some (message "1")) status callbacks).0 ≡ none)
    × ((status : Status) (t : String)
        → callback_of t (dr_cb (some (message "1")) status callbacks).1 ≡ callback_of t callbacks)
dr_cb_example = dr_cb-callback_of (message "1") callbacks

dr_cb_blocks_example :
    ((set_call_back_for_req_type {C = ℕ} "monitoring" 3
        (dr_cb (some (message "1")) persisted []).1).0
      ≡ false)
    × (callback_of "monitoring"
          (set_call_back_for_req_type {C = ℕ} "monitoring" 3
            (dr_cb (some (message "1")) persisted []).1).1
        ≡ none)
unfolding find
dr_cb_blocks_example = dr_cb_blocks (message "1") persisted 3 [] refl

consumer-AlwaysAnswers : AlwaysAnswers consumer
consumer-AlwaysAnswers timeout [] = (_, refl, λ e. cc)
consumer-AlwaysAnswers timeout (text ∷ ts) = (_, refl, λ e. cc)

get_msg_example :
    (fine : Bool) × (after : List Element) × (w' : List String) × (get_msg consumer 2 2
        (element_of (kafka_message "0") ∷ [])
        250
        ("1" ∷ "2" ∷ "3" ∷ [])
      ≡ some (fine, after, w'))
    × (new : List Element) × (after ≡ element_of (kafka_message "0") ∷ new)
    × ((length after ≤ 2) ⊎ (new ≡ []))
    × (fine ≡ false → after ≢ [])
get_msg_example =
    get_msg_returns consumer 2 2 (element_of (kafka_message "0") ∷ []) 250 ("1" ∷ "2" ∷ "3" ∷ [])
      consumer-AlwaysAnswers (omega arith) (omega arith)

auto_poll_example :
    ((set_all (true ∷ []) constructed).is_joinable ≡ false)
    × (deinit (set_all (true ∷ []) constructed) ≡ throws (std_error "Invalid argument"))
auto_poll_example = deinit-last_call (true ∷ [])
