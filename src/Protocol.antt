-- ===== src/Protocol.antt =====
-- crates/command-protocol: the data that server and client share.
pub mod Http
pub mod Domain
pub mod Wire
pub mod Topic
pub mod Conversions
pub mod Codec
