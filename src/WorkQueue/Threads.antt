-- ===== src/WorkQueue/Threads.antt =====
-- The calls of several threads on one queue: any number of senders, and one receiver. A step is one
-- operation on a semaphore or on the mutex, or the statements between taking and releasing `q_sync`
-- that read and write the slots.
pub mod Pool
pub mod Cells
pub mod Moves
pub mod Counts
pub mod Invariant
pub mod Safety
pub mod Progress
pub mod Answers
mod Tests
