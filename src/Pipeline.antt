-- ===== src/Pipeline.antt =====
-- internal/kernel/pipeline: what one inbound message makes the gateway do.
pub mod World
pub mod Turn
pub mod Handle
pub mod Answers
pub mod Streams
pub mod Sync
pub mod Replies
pub mod Isolation
pub mod Reload
pub mod Tests
