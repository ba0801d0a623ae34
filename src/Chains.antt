-- ===== src/Chains.antt =====
-- ds.c: lists, queues and stacks of elements of the caller, linked by their first field.
pub mod Store
pub mod Calls
pub mod Shape
pub mod Queues
pub mod Stacks
pub mod Lists
pub mod Doubles
pub mod DoubleLists
pub mod DoubleUnlink
pub mod Trees
pub mod Forests
pub mod Clearing
pub mod Families
pub mod FamilyCut
pub mod Again
mod Tests
mod TreeTests
