-- ===== src/Shared.antt =====
-- Sp.c: blocks with a count of references, in a list.
pub mod Calls
pub mod Counts
pub mod Releases
mod Tests
