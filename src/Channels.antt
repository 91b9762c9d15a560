-- ===== src/Channels.antt =====
-- internal/kernel/channels: which channels run, and whom they answer.
pub mod Allowlist
pub mod Manager
pub mod Tests
