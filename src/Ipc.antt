-- ===== src/Ipc.antt =====
-- WQIpc.c: a queue between processes, in shared memory.
pub mod Calls
pub mod Waits
pub mod Recv
pub mod Send
pub mod Open
mod Tests
