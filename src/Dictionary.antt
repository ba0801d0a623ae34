-- ===== src/Dictionary.antt =====
-- The dictionary of Utils.c: strings with a string or an int each.
pub mod Keys
pub mod Calls
pub mod Find
pub mod Adds
pub mod Removal
mod Tests
