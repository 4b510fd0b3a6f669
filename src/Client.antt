-- ===== src/Client.antt =====
-- The client that carries the mails of a mail directory to other servers: client/src.
pub mod Network
pub mod Receive
pub mod Sending
pub mod Strings
pub mod Files
pub mod Chunks
pub mod Readline
pub mod Letter
pub mod Mailbox
pub mod Smtp
pub mod Context
pub mod Handlers
pub mod Connections
pub mod Cells
pub mod Overlaps
pub mod Rounds
pub mod Mutex
pub mod Mail
pub mod Replies
pub mod Sends
pub mod Commands
pub mod Lines
pub mod Transaction
pub mod Removal
pub mod Greeting
pub mod Classes
pub mod Split
pub mod Headers
pub mod Addresses
pub mod Parsed
pub mod Relay
mod Tests
mod RelayTests
mod ConnectionTests
