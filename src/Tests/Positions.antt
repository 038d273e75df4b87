-- ===== src/Tests/Positions.antt =====
-- A consumer over a queue of three messages, on which the thread of the command controller runs.
use ekg.Prelude.{
  ℕ, ◌+◌, ◌≡◌, ◌≢◌, refl, Bool, true, false, Option, none, some, List, [], length, ltb, arith,
}
use ekg.Common.Outcome.{ok}
use ekg.Command.Types.{Command}
use ekg.Consumer.{Element}
use ekg.Consumer.Thread.Offsets.{Offsets}
use ekg.Pubsub.Subscriber.{KafkaMessage, KafkaConsumer, no_error, partition_eof, timed_out, get_msg}
use ekg.Pubsub.Subscriber.Fetching.{AlwaysAnswers}
use ekg.Pubsub.Subscriber.Positions.{Position, Positions, handed, get_msg-position}
use ekg.Pubsub.Subscriber.Interface.{kafka_subscriber, kafka_offsets}
use ekg.Tests.{kafka_message}

abbrev nothing : KafkaMessage
nothing = record { err = timed_out; key = none; len = 0; payload = "" }

-- The position, and the last one that was asked to be committed.
abbrev next : Bool → ℕ × ℕ → Option KafkaMessage × (ℕ × ℕ)
next true w = (some (kafka_message "get"), (w.0 + 1, w.1))
next false w = (some nothing, w)

abbrev queue_of_three : KafkaConsumer (ℕ × ℕ)
queue_of_three = record {
  consume = λ timeout w. next (ltb w.0 3) w;
  subscribe = λ queue w. (no_error, w);
  commit_sync = λ w. (no_error, (w.0, w.0));
  commit_async = λ w. (no_error, (w.0, w.0));
  err2str = λ err. "error";
  is_past_end = λ w. false;
}

next_position : (b : Bool) (w : ℕ × ℕ) → (next b w).1.0 ≡ w.0 + handed (next b w).0
next_position true w = refl
next_position false w = omega arith

next_requested : (b : Bool) (w : ℕ × ℕ) → (next b w).1.1 ≡ w.1
next_requested true w = refl
next_requested false w = refl

abbrev standing : Position queue_of_three
standing = record { position = λ w. w.0; position-consume = λ t w. next_position (ltb w.0 3) w }

positions : Positions queue_of_three
positions = record {
  place = standing;
  requested = λ w. w.1;
  requested-consume = λ t w. next_requested (ltb w.0 3) w;
  position-async = λ w. refl;
  requested-async = λ w h. refl;
  async_fails = λ w h. absurd (h refl);
}

next_answers :
    (b : Bool) (w : ℕ × ℕ) → (m : KafkaMessage) × ((next b w).0 ≡ some m) × (m.err ≢ partition_eof)
next_answers true w = (kafka_message "get", refl, λ e. cc)
next_answers false w = (nothing, refl, λ e. cc)

queue-AlwaysAnswers : AlwaysAnswers queue_of_three
queue-AlwaysAnswers timeout w = next_answers (ltb w.0 3) w

positions_example :
    (fine : Bool) × (new : List Element) × (w' : ℕ × ℕ) × (get_msg queue_of_three 6 5 [] 250 (1, 0)
      ≡ some (fine, new, w'))
    × (w'.0 ≡ 1 + length new)
positions_example = get_msg-position queue_of_three standing 5 [] 250 (1, 0) queue-AlwaysAnswers

-- The interface of the thread on this consumer.
thread_offsets :
    Offsets (kafka_subscriber queue_of_three 10 250) (λ (cs : List Command) w. (ok tt, w))
unfolding positions
thread_offsets =
    kafka_offsets queue_of_three positions queue-AlwaysAnswers 10 250 (λ cs w. (ok tt, w))
      (λ cs w. refl) (λ cs w. refl)
