-- ===== src/Heap.antt =====
-- Heap.c in the test mode of linux: blocks of pages with checks, in a list.
pub mod Bytes
pub mod Layout
pub mod Calls
pub mod Linked
pub mod Unlink
pub mod Blocks
pub mod Prefix
pub mod Free
pub mod Release
pub mod Linking
pub mod Malloc
pub mod Listing
mod Tests
