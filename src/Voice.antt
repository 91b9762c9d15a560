-- ===== src/Voice.antt =====
-- internal/kernel/voice: sentences, wake phrases and samples of a spoken conversation.
pub mod Sentences
pub mod Wake
pub mod Samples
pub mod Tests
