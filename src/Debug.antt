-- ===== src/Debug.antt =====
-- debug.c: messages to files, sockets, functions and the console.
pub mod Sinks
pub mod Messages
pub mod Listing
pub mod Layout
pub mod Rows
mod Tests
