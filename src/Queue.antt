-- ===== src/Queue.antt =====
-- src/queue.rs: the queue of one producer and one consumer.
pub mod Spsc
pub mod Slots
pub mod Sound
pub mod Push
pub mod Pop
pub mod Fifo
