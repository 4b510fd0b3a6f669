-- ===== src/Server.antt =====
-- The server of the program: server/src/lib/server.
pub mod Users
pub mod Access
pub mod Timers
pub mod Table
pub mod Group
pub mod Recipients
pub mod Grouped
pub mod Delivery
pub mod Mail
pub mod Send
pub mod State
pub mod Reply
pub mod Handlers
pub mod Read
pub mod Turn
pub mod Turns
pub mod Paired
pub mod Keeps
pub mod ReadKeeps
pub mod Steps
pub mod Dispatch
pub mod Quiet
pub mod Alive
pub mod Whole
pub mod Lines
pub mod Directories
pub mod Letters
pub mod Delivered
pub mod Headers
pub mod Lost
pub mod Elapsed
mod Tests
mod DeliveryTests
