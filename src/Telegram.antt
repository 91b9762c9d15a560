-- ===== src/Telegram.antt =====
-- internal/plugins/channel/telegram: how an answer is shown while it comes in.
pub mod Card
pub mod Stream
pub mod Tests
