-- ===== src/Sender.antt =====
-- The portable senders and their messages: email/message.go, email/message_sender.go,
-- email/templated_message.go, email/templated_sender.go and email/attachment.go.
pub mod Message
pub mod State
pub mod Simulation
pub mod Channels
pub mod Single
pub mod Batches
pub mod Starved
pub mod Kept
pub mod Tests
