-- ===== src/Pubsub/Publisher.antt =====
-- service/pubsub/IPublisher.h and IPublisher.cpp, impl/kafka/RDKafkaPublisher.h and
-- RDKafkaPublisher.cpp. The Kafka producer is a parameter over a world `W`.
pub mod Queueing
pub mod Reports
pub mod Memory
use mathlib.Core.Option.{get_or}
use ekg.Prelude.{
  ℕ, zero, suc, ◌≡◌, refl, String, Bool, true, false, Option, none, some, List, [], ◌∷◌, String_key,
  ◌==◌, if◌then◌else◌, nat_eq,
}
use ekg.Prelude.StdMap.{StdMap, insert, at}
use ekg.Common.Outcome.{Outcome, ok, undefined}
use ekg.Node.Worker.{MonitorMessage}

pub data EventType : Type 0 where
  on_delivery on_sent on_error : EventType

-- RdKafka::Message::Status
pub data Status : Type 0 where
  not_persisted possibly_persisted persisted : Status

-- `produce` answers whether the message was taken; `outq_len` counts what waits, and `poll` serves
-- some of it.
pub record Producer (W : Type 0) : Type 0 where
  pub produce : MonitorMessage → W → Bool × W
  pub outq_len : W → ℕ
  pub poll : ℕ → W → W

-- A callback of type `EventCallback`; an empty std::function is `none`.
abbrev pub Callbacks : Type 0 → Type 0
Callbacks C = StdMap String (Option C)

-- The event that a status is reported as.
unfoldable pub event_of_status : Status → EventType
event_of_status not_persisted = on_error
event_of_status possibly_persisted = on_error
event_of_status persisted = on_sent

module _ {C : Type 0} where
  -- setCallBackForReqType answers 1, or -1 (here false) for a type that has an entry.
  unfoldable pub set_call_back_for_req_type : String → C → Callbacks C → Bool × Callbacks C
  set_call_back_for_req_type req_type callback cs =
      let (cs', fresh) = insert req_type (some callback) cs in (fresh, cs')

  unfoldable pub report_to :
      Option C → Status → MonitorMessage → Option (C × EventType × MonitorMessage)
  unfolding event_of_status
  report_to none status m = none
  report_to (some callback) status m = some (callback, event_of_status status, m)

  -- dr_cb: the call that is made, if any, and the map, to which operator[] adds a missing type. The
  -- message is the one that `pushMessage` handed over; it is destroyed at the end.
  unfoldable pub dr_cb :
      Option MonitorMessage
      → Status
      → Callbacks C
      → Option (C × EventType × MonitorMessage) × Callbacks C
  unfolding report_to
  dr_cb none status cs = (none, cs)
  dr_cb (some m) status cs =
      let (handler, cs') = at m.request_type none cs in (report_to handler status m, cs')

module _ {W : Type 0} (producer : Producer W) where
  open producer use {produce, outq_len, poll}

  -- pushMessage answers 0 (here true) or -1. The unique pointer is released to the producer on
  -- success, and destroyed with the message on failure; a null pointer is dereferenced.
  unfoldable pub push_message : Option MonitorMessage → W → Outcome Bool × W
  push_message none w = (undefined "null message", w)
  push_message (some m) w = let (taken, w') = produce m w in (ok taken, w')

  -- pushMessages: a message that was taken leaves the vector; the first that was not ends the
  -- loop, and its pointer, which was moved from, stays as null.
  unfoldable pub push_messages :
      List (Option MonitorMessage) → W → Outcome (Bool × List (Option MonitorMessage)) × W
  unfolding push_message
  push_messages [] w = (ok (true, []), w)
  push_messages (none ∷ ms) w = (undefined "null message", w)
  push_messages (some m ∷ ms) w =
      let (taken, w') = produce m w in
      let rest = push_messages ms w' in if taken then rest else (ok (false, none ∷ ms), w')

  -- flush, with fuel: `none` means that the fuel ran out.
  unfoldable pub flush : ℕ → ℕ → W → Option W
  flush zero timeo w = none
  flush (suc n) timeo w =
      let rest = flush n timeo (poll timeo w) in if nat_eq (outq_len w) 0 then some w else rest

  -- flush answers 0; autoPoll calls it every 250 milliseconds until the thread is told to stop,
  -- which this many rounds come before. The fuel is for each flush.
  unfoldable pub auto_poll : ℕ → ℕ → W → Option W
  unfolding flush
  auto_poll fuel zero w = some w
  auto_poll fuel (suc rounds) w = elim (flush fuel 10 w) [
    | none ↦ none
    | some w' ↦ auto_poll fuel rounds w'
  ]

  -- createQueue answers 0 (here true) or -1; `make_topic` is RdKafka::Topic::create.
  unfoldable pub create_queue : (String → W → Bool × W) → String → W → Bool × W
  create_queue make_topic queue w = if queue == "" then (true, w) else make_topic queue w

-- The answer is a constant.
unfoldable pub get_queue_message_size : ℕ
get_queue_message_size = 0
