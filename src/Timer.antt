-- ===== src/Timer.antt =====
-- src/HW_models/NRF_TIMER.c: the five timers. `Count` has the conversions and the compare times of
-- one instance, `Tasks` the tasks, the interrupt line and the handler of the event timer, and
-- `Registers` the effects of register writes.
mod Count
mod Tasks
mod Registers
unfoldable pub use Count.*
unfoldable pub use Tasks.*
unfoldable pub use Registers.*
