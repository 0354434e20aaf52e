-- ===== src/PpiLaws.antt =====
-- What the programmable peripheral interconnect does with an event.
mod Entries
pub mod Enqueue
pub mod Idle
pub mod Nesting
pub mod Chains
pub mod Order
pub mod Route
