-- ===== src/Template.antt =====
-- Email templates: email/emailtemplate/template.go.
pub mod Data
pub mod Store
pub mod Execute
pub mod Views
pub mod Recipients
pub mod Tests
