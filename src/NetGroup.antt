-- ===== src/NetGroup.antt =====
-- NetGroup.c: hosts that exchange messages over their queues, with alarms and memberships.
pub mod Alarms
pub mod Schedule
pub mod Starting
pub mod Routes
pub mod Members
pub mod Routing
pub mod Packets
pub mod Hosts
pub mod Casts
pub mod Delivery
pub mod Turns
pub mod Unicast
pub mod Registering
pub mod Deleting
pub mod Groups
pub mod Server
pub mod Shifting
pub mod Buffering
pub mod Destinations
pub mod Sending
pub mod Loop
mod Tests
mod GroupTests
mod ServerTests
