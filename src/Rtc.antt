-- ===== src/Rtc.antt =====
-- src/HW_models/NRF_RTC.c: the three real-time counters. `Count` has the conversions and the match
-- times, `Tasks` the tasks and the event timer, and `Registers` the effects of register writes.
mod Count
mod Tasks
mod Registers
unfoldable pub use Count.*
unfoldable pub use Tasks.*
unfoldable pub use Registers.*
