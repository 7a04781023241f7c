-- ===== src/Smtp.antt =====
-- Sending by SMTP: email/smtpemail.
pub mod Codes
pub mod StatusMap
pub mod Bounce
pub mod Reasons
pub mod Session
pub mod Sender
pub mod Recipients
pub mod Transaction
pub mod Verdict
pub mod Descriptions
pub mod Message
pub mod Prepared
pub mod MessageTests
pub mod Fold
pub mod Unfolded
pub mod Broken
pub mod HeaderText
pub mod Multipart
pub mod Nesting
pub mod TopLevel
pub mod LineWriter
pub mod ErrorCode
pub mod Pool
pub mod PoolPanics
pub mod DialerUrl
pub mod DialerQuery
pub mod Anonymous
pub mod LoginAuth
pub mod LoginHost
pub mod SenderUrl
pub mod QueryOrder
pub mod Topic
pub mod Published
pub mod TopicTests
pub mod Tests
pub mod WriterTests
pub mod UrlTests
pub mod PoolTests
