-- ===== src/RadioLaws.antt =====
-- Laws of src/HW_models/NRF_RADIO_timings.c, NRF_RADIO_bitcounter.c and NRF_RADIO_utils.c.
pub mod Rampup
pub mod Bitcounter
pub mod Packet
pub mod Shown
pub mod Disable
pub mod Ready
pub mod Air
