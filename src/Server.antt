-- ===== src/Server.antt =====
-- apps/command-server/src: what the sessions of the server share.
pub mod Auth
pub mod AppState
pub mod Cookies
pub mod Config
pub mod Api
pub mod AdminSessions
