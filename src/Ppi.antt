-- ===== src/Ppi.antt =====
-- src/HW_models/NRF_PPI.c: the programmable peripheral interconnect.
mod Routes
mod Queue
mod Run
unfoldable pub use Routes.*
unfoldable pub use Queue.*
unfoldable pub use Run.*
