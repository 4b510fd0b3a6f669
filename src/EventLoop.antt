-- ===== src/EventLoop.antt =====
-- The event loop of the server: server/src/lib/event_loop.
pub mod Event
pub mod EventsQueue
pub mod Registered
pub mod Lookup
pub mod Table
pub mod Refine
pub mod Replay
pub mod Occurred
pub mod Sockets
pub mod Loop
pub mod Transfer
pub mod Poll
pub mod Bounds
pub mod Moves
pub mod Writes
pub mod Pollfd
pub mod Accept
pub mod Async
pub mod Order
pub mod Null
pub mod Close
mod Tests
