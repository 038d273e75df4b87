-- ===== src/Pubsub/Subscriber/Interface.antt =====
-- RDKafkaSubscriber behind the interface ISubscriber, as the thread of the command controller uses
-- it.
use ekg.Prelude.{
  ℕ, suc, ◌+◌, ◌≡◌, ◌≢◌, refl, ap, ◌∙◌, Bool, false, Option, none, some, List, [], length,
}
use ekg.Common.Outcome.{Outcome, ok}
use ekg.Command.Types.{Command}
use ekg.Consumer.{Element, Subscriber}
use ekg.Consumer.Thread.Offsets.{Offsets}
use ekg.Pubsub.Subscriber.{
  ErrorCode, no_error, partition_eof, timed_out, timed_out_queue, other_error, KafkaConsumer,
  get_msg, commit, committed,
}
use ekg.Pubsub.Subscriber.Fetching.{AlwaysAnswers}
use ekg.Pubsub.Subscriber.Positions.{Positions, get_msg-requested}

module _ {W : Type 0} (consumer : KafkaConsumer W) where
  open consumer use {commit_async}

  -- The consumer behind the interface of the command controller, which commits with the default.
  received : Option (Bool × List Element × W) → W → List Element × W
  received none w = ([], w)
  received (some (fine, ms, w')) w = (ms, w')

  unfoldable pub kafka_subscriber : ℕ → ℕ → Subscriber W
  unfolding received
  kafka_subscriber m_num timeout = record {
    get_msg = λ w. received (get_msg consumer (suc m_num) m_num [] timeout w) w;
    commit = λ w. commit consumer false w;
  }

  committed-ok :
      (code : ErrorCode) (w : W)
      → ((committed consumer (code, w)).1 ≡ w)
        × ((committed consumer (code, w)).0 ≡ ok tt → code ≡ no_error)
        × ((committed consumer (code, w)).0 ≢ ok tt → code ≢ no_error)
  unfolding committed
  committed-ok no_error w = (refl, λ h. refl, λ h. absurd (h refl))
  committed-ok partition_eof w = (refl, λ h. cc, λ h e. cc)
  committed-ok timed_out w = (refl, λ h. cc, λ h e. cc)
  committed-ok timed_out_queue w = (refl, λ h. cc, λ h e. cc)
  committed-ok other_error w = (refl, λ h. cc, λ h e. cc)

  module _ (positions : Positions consumer) (ans : AlwaysAnswers consumer) where
    open positions use {
      place, requested, requested-consume, position-async, requested-async, async_fails,
    }
    open place use {position}

    received-position :
        (m_num timeout : ℕ) (w : W)
        → (position (Subscriber.get_msg (kafka_subscriber m_num timeout) w).1
            ≡ position w + length (Subscriber.get_msg (kafka_subscriber m_num timeout) w).0)
          × (requested (Subscriber.get_msg (kafka_subscriber m_num timeout) w).1 ≡ requested w)
    unfolding kafka_subscriber received
    received-position m_num timeout w =
        let (fine, new, w', e, p, c) =
          get_msg-requested consumer place requested requested-consume m_num [] timeout w ans in
        rw e (p, c)

    committed-position :
        (w : W)
        → (position (commit consumer false w).1 ≡ position w)
          × ((commit consumer false w).0 ≡ ok tt
              → requested (commit consumer false w).1 ≡ position w)
          × ((commit consumer false w).0 ≢ ok tt
              → requested (commit consumer false w).1 ≡ requested w)
    unfolding commit
    committed-position w =
        let (code, w') = commit_async w in
        let (same, returned, failed) = committed-ok code w' in
        (
          ap position same ∙ position-async w,
          λ h. ap requested same ∙ requested-async w (returned h),
          λ h. ap requested same ∙ async_fails w (failed h),
        )

    -- With a handler that leaves the consumer alone, what the thread relies on holds.
    pub kafka_offsets :
        (m_num timeout : ℕ) (handler : List Command → W → Outcome (Unit {0}) × W)
        → ((cs : List Command) (w : W) → position (handler cs w).1 ≡ position w)
        → ((cs : List Command) (w : W) → requested (handler cs w).1 ≡ requested w)
        → Offsets (kafka_subscriber m_num timeout) handler
    unfolding kafka_subscriber
    kafka_offsets m_num timeout handler p c = record {
      position = position;
      requested = requested;
      position-get_msg = λ w. (received-position m_num timeout w).0;
      requested-get_msg = λ w. (received-position m_num timeout w).1;
      position-commit = λ w. (committed-position w).0;
      requested-commit = λ w. (committed-position w).1;
      commit_fails = λ w. (committed-position w).2;
      position-handler = p;
      requested-handler = c;
    }
