-- ===== src/Address.antt =====
-- The RFC 5322 address parser and printer (email/address.go).
pub mod Utf8
pub mod Chars
pub mod Lexer
pub mod Spec
pub mod Phrase
pub mod Parser
pub mod Entry
pub mod Printer
pub mod Verify
pub mod Limits
pub mod Ascii
pub mod Dotted
pub mod RoundTrip
pub mod Tests
