-- ===== src/Pubsub.antt =====
-- service/pubsub: the publisher and the subscriber over the Kafka client library.
pub mod Publisher
pub mod Subscriber
pub mod Setup
