-- ===== src/Pubsub.antt =====
-- app/pubsub
pub mod InstanceRegistry
pub mod Publisher
pub mod Subscriber
