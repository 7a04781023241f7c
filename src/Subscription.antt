-- ===== src/Subscription.antt =====
-- Receiving delivery events: email/delivery_subscription.go.
pub mod Float
pub mod Event
pub mod BatchSize
pub mod State
pub mod Queue
pub mod Progress
pub mod Sticky
pub mod Tests
