-- ===== src/WorkQueue.antt =====
-- WQ.c: the queue between a receiver and its senders.
pub mod Slots
pub mod Calls
pub mod Ring
pub mod Steps
pub mod Mailbox
pub mod Invariant
pub mod GiveBack
pub mod Recv
pub mod Send
pub mod Enqueue
pub mod Open
pub mod Session
pub mod Threads
mod Tests
