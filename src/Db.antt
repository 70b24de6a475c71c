-- ===== src/Db.antt =====
-- apps/command-server/src/db.rs: the SQLite store, its rows, how they are read, and its operations.
pub mod Rows
pub mod Text
pub mod Read
pub mod Nodes
pub mod Tasks
pub mod Events
pub mod Lifecycle
pub mod Writes
pub mod Ops
pub mod Keys
pub mod Sound
pub mod Effects
pub mod Claim
mod Tests
pub mod Submit
pub mod Create
pub mod Reading
pub mod Listings
pub mod Queue
pub mod Fifo
pub mod Served
pub mod Transitions
pub mod Preserve
pub mod Held
pub mod Release
