-- ===== src/Pubsub/Subscriber/Topics.antt =====
-- Which topics are subscribed to.
use ekg.Prelude.{◌≡◌, refl, String, true, List, ◌++◌}
use ekg.Common.Outcome.{ok}
use ekg.Pubsub.Subscriber.{no_error, KafkaConsumer, subscribed, set_queue, add_queue}

module _ {W : Type 0} (consumer : KafkaConsumer W) where
  open consumer use {subscribe}

  -- When both subscriptions are accepted, `addQueue` after `setQueue` subscribes to the topics
  -- of both, in one list, and forgets those from before `setQueue`.
  pub add_queue-set_queue :
      (queue more topics : List String) (w : W)
      → (subscribe queue w).0 ≡ no_error
      → (subscribe (queue ++ more) (subscribe queue w).1).0 ≡ no_error
      → add_queue consumer true more
          (set_queue consumer true queue topics w).1
          (set_queue consumer true queue topics w).2
        ≡ (ok tt, queue ++ more, (subscribe (queue ++ more) (subscribe queue w).1).1)
  unfolding add_queue set_queue
  add_queue-set_queue queue more topics w h k = rw (h, k, subscribed) refl
