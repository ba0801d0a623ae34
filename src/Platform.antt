-- ===== src/Platform.antt =====
-- Platform.c: the operating system behind the library, the codes of WQ.h, absolute deadlines, and
-- the locks of the Linux build.
pub mod Codes
pub mod Run
pub mod Clock
pub mod Posix
pub mod Locks
pub mod Counting
