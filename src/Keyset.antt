-- ===== src/Keyset.antt =====
-- The `dnst keyset` command: src/commands/keyset/cmd.rs.
pub mod Types
pub mod Report
pub mod Workspace
pub mod Config
pub mod Run
pub mod NewKeys
pub mod AutoStart
pub mod Rrsigs
pub mod Rrsets
pub mod Rolls
pub mod Labels
pub mod Automation
pub mod Renewal
pub mod Cron
pub mod Propagation
pub mod Removal
