-- ===== src/Client.antt =====
-- apps/command-client/src: the program on a node.
pub mod Config
pub mod Executor
pub mod Capture
pub mod Starting
pub mod World
pub mod Session
pub mod Run
pub mod OneChild
pub mod Orderly
pub mod Delivery
mod Deliveries
mod Tests
