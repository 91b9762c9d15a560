-- ===== src/Slash.antt =====
-- internal/kernel/slash: the parser of slash commands, the registry, and the phase before a turn.
pub mod Lexer
pub mod Parser
pub mod Registry
pub mod Dispatch
pub mod Listing
pub mod Plugins
pub mod Tests
