-- ===== src/Queue.antt =====
-- The queue of chunks between the sockets and the packet readers: src/network-queue.c.
pub mod Stream
pub mod Cuts
pub mod Fifo
pub mod Peek
pub mod Pop
mod Tests
