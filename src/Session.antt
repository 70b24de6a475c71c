-- ===== src/Session.antt =====
-- apps/command-server/src/session.rs: the websocket session of one node.
pub mod World
pub mod Frames
pub mod Dispatch
pub mod Publish
pub mod Socket
pub mod Stores
pub mod Ensures
pub mod Ops
pub mod Handlers
pub mod Life
pub mod Released
pub mod Single
pub mod Tracking
pub mod Inflight
mod Reaches
pub mod Turns
pub mod Reach
pub mod Handshake
mod Tests
