-- ===== src/Pubsub/Subscriber.antt =====
-- service/pubsub/ISubscriber.h and ISubscriber.cpp, impl/kafka/RDKafkaSubscriber.h and
-- RDKafkaSubscriber.cpp. The Kafka consumer and the clock are parameters over a world `W`.
pub mod Fetching
pub mod Topics
pub mod Positions
pub mod Interface
use mathlib.Core.Option.{get_or}
use ekg.Prelude.{
  ℕ, zero, suc, String, Bool, true, false, not, Option, none, some, List, [], ◌∷◌, ◌++◌, length,
  ltb, if◌then◌else◌, append_text,
}
use ekg.Common.Outcome.{Outcome, Exception, ok, throws, runtime_error}
use ekg.Consumer.{Element}

-- RdKafka::ErrorCode, as far as the code tells them apart.
pub data ErrorCode : Type 0 where
  no_error partition_eof timed_out timed_out_queue other_error : ErrorCode

pub record KafkaMessage : Type 0 where
  pub err : ErrorCode
  pub key : Option String
  pub len : ℕ
  pub payload : String

pub record KafkaConsumer (W : Type 0) : Type 0 where
  pub consume : ℕ → W → Option KafkaMessage × W
  pub subscribe : List String → W → ErrorCode × W
  pub commit_sync : W → ErrorCode × W
  pub commit_async : W → ErrorCode × W
  pub err2str : ErrorCode → String
  -- Whether the clock is past the end that `getMsg` computed when it was called.
  pub is_past_end : W → Bool

-- internalConsume
unfoldable pub element_of : KafkaMessage → Element
element_of m = record { key = get_or m.key "default-key"; data_len = m.len; content = m.payload }

-- What one turn of the loop decides: to go on with these messages and this timeout, or to stop with
-- or without an error.
pub data Turn : Type 0 where
  go_on : List Element → ℕ → Turn
  stop : Bool → Turn

-- The switch of `getMsg` on the error code.
unfoldable pub turn : ErrorCode → KafkaMessage → List Element → ℕ → Turn
turn partition_eof m [] timeout = go_on [] timeout
turn partition_eof m (x ∷ xs) timeout = go_on (x ∷ xs) 1
turn no_error m messages timeout = go_on (messages ++ element_of m ∷ []) timeout
turn timed_out m messages timeout = stop false
turn timed_out_queue m messages timeout = stop false
turn other_error m [] timeout = stop false
turn other_error m (x ∷ xs) timeout = stop true

module _ {W : Type 0} (consumer : KafkaConsumer W) where
  open consumer use {consume, subscribe, commit_sync, commit_async, err2str, is_past_end}

  -- The end of a turn: `rest` is the loop from the next one.
  after_turn :
      Turn
      → List Element
      → W
      → (List Element → ℕ → W → Option (Bool × List Element × W))
      → Option (Bool × List Element × W)
  after_turn (stop failed) messages w rest = some (not failed, messages, w)
  after_turn (go_on messages' timeout') messages w rest =
      let again = rest messages' timeout' w in
      if is_past_end w then some (true, messages', w) else again

  after_consume :
      Option KafkaMessage
      → List Element
      → ℕ
      → W
      → (List Element → ℕ → W → Option (Bool × List Element × W))
      → Option (Bool × List Element × W)
  unfolding after_turn turn
  after_consume none messages timeout w rest = rest messages timeout w
  after_consume (some m) messages timeout w rest =
      after_turn (turn m.err m messages timeout) messages w rest

  -- The loop of `getMsg`, with fuel: `none` means that the fuel ran out. The flag is true for the
  -- answer 0 and false for -1.
  unfoldable pub get_msg : ℕ → ℕ → List Element → ℕ → W → Option (Bool × List Element × W)
  unfolding after_consume
  get_msg zero m_num messages timeout w = none
  get_msg (suc n) m_num messages timeout w =
      let answer =
        after_consume (consume timeout w).0 messages timeout (consume timeout w).1
          (get_msg n m_num) in
      if ltb (length messages) m_num then answer else some (true, messages, w)

  abbrev with_reason : String → ErrorCode → Exception
  with_reason text err = runtime_error (append_text text (append_text (err2str err) ")"))

  abbrev uninitialized : Exception
  uninitialized = runtime_error "Subscriber has not been initialized"

  subscribed : ErrorCode → List String → W → Outcome (Unit {0}) × List String × W
  subscribed no_error topics w = (ok tt, topics, w)
  subscribed err topics w = (throws (with_reason "Error creating kafka producer (" err), topics, w)

  -- The list of topics is replaced, or grows; then the whole list is subscribed to. The flag is
  -- whether there is a consumer.
  unfoldable pub set_queue :
      Bool → List String → List String → W → Outcome (Unit {0}) × List String × W
  unfolding subscribed
  set_queue false queue topics w = (throws uninitialized, topics, w)
  set_queue true queue topics w = let (err, w') = subscribe queue w in subscribed err queue w'

  unfoldable pub add_queue :
      Bool → List String → List String → W → Outcome (Unit {0}) × List String × W
  unfolding subscribed
  add_queue false queue topics w = (throws uninitialized, topics, w)
  add_queue true queue topics w =
      let (err, w') = subscribe (topics ++ queue) w in subscribed err (topics ++ queue) w'

  committed : ErrorCode × W → Outcome (Unit {0}) × W
  committed (no_error, w) = (ok tt, w)
  committed (err, w) = (throws (with_reason "Error committing offset (" err), w)

  -- async ? commitSync() : commitAsync(), as in the source.
  unfoldable pub commit : Bool → W → Outcome (Unit {0}) × W
  unfolding committed
  commit async w = committed (if async then commit_sync w else commit_async w)

  -- The destructor calls `close`.
  unfoldable pub deinit : (W → W) → W → W
  deinit close w = close w
