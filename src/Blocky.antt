-- ===== src/Blocky.antt =====
-- The upload of attachments by email/blockyemail/blocky.go.
pub mod Upload
pub mod Uploaded
pub mod Tests
