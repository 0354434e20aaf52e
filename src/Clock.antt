-- ===== src/Clock.antt =====
-- src/HW_models/NRF_CLOCK.c: the high and low frequency clocks, the calibration and its timer. `Events`
-- has the events and the interrupt line, `Tasks` the tasks, and `Expiry` what their timers do.
mod Events
mod Tasks
mod Expiry
unfoldable pub use Events.*
unfoldable pub use Tasks.*
unfoldable pub use Expiry.*
