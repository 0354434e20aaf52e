-- ===== src/RadioLaws/Shown.antt =====
-- STATE shows the state of the radio: the invariant of src/HW_models/NRF_RADIO.c.
pub mod Base
pub mod Ccm
pub mod Phy
pub mod Tasks
pub mod Events
pub mod Machine
pub mod Steps
