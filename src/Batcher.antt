-- ===== src/Batcher.antt =====
-- The package email/batcher (email/batcher/batcher.go).
pub mod Options
pub mod Split
pub mod State
pub mod NextBatch
pub mod Limits
pub mod Delivery
pub mod Shutdown
pub mod Progress
pub mod Sizes
pub mod Tests
