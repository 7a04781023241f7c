-- ===== src/Errors.antt =====
-- Errors of bcerrors/errors.go, and `wrapError` of email/delivery_subscription.go.
pub mod Chain
pub mod Links
pub mod Code
pub mod Tests
