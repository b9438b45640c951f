-- ===== src/Update.antt =====
-- The `dnst update` command: src/commands/update.rs.
pub mod Serial
pub mod Message
pub mod Servers
pub mod Send
