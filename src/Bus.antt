-- ===== src/Bus.antt =====
-- internal/kernel/bus: messages, the bounded queues with their publishers and `Close`, and the
-- delivery of outbound messages. Content blocks and values of metadata are parameters.
pub mod Messages
pub mod Queues
pub mod Mailbox
pub mod Sound
pub mod Refine
pub mod Fifo
pub mod Closing
pub mod Delivery
pub mod Tests
