-- ===== src/Smtp.antt =====
-- The SMTP protocol of the server: server/src/lib/smtp.
pub mod Fsm
pub mod Definition
pub mod Order
pub mod Regex
pub mod State
pub mod Command
pub mod Parse
pub mod Recognise
pub mod Replies
pub mod Execute
pub mod Invariant
pub mod Session
pub mod Mail
pub mod Refused
pub mod Sample
mod Tests
