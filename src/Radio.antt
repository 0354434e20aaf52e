-- ===== src/Radio.antt =====
-- The radio: src/HW_models/NRF_RADIO.c and the five NRF_RADIO_*.c beside it. `Timings`, `Packet` and
-- `Requests` have what its state machines are built on.
mod Timings
mod Tasks
mod Packet
mod Requests
mod Abort
mod Transmit
mod Receive
mod Cca
mod Control
mod Events
mod Signals
mod Machine
mod TaskRegisters
unfoldable pub use Timings.*
unfoldable pub use Tasks.*
unfoldable pub use Packet.*
unfoldable pub use Requests.*
unfoldable pub use Abort.*
unfoldable pub use Transmit.*
unfoldable pub use Receive.*
unfoldable pub use Cca.*
unfoldable pub use Control.*
unfoldable pub use Events.*
unfoldable pub use Signals.*
unfoldable pub use Machine.*
unfoldable pub use TaskRegisters.*
