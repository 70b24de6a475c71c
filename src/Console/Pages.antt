-- ===== src/Console/Pages.antt =====
-- apps/command-server/src/console.rs: the pages of the console, without their scripts and styles.
pub mod Texts
pub mod Html
pub mod Tasks
pub mod Nodes
pub mod Workspace
pub mod NodePage
pub mod Handlers
pub mod Runtime
pub mod Filters
pub mod Markup
pub mod Blank
pub mod Safe
pub mod Bounds
pub mod Shown
