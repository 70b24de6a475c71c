-- ===== src/Console.antt =====
-- apps/command-server/src/console.rs: the login, the forms and the pages of the console.
pub mod Escape
pub mod Login
pub mod Forms
pub mod Pages
mod Tests
