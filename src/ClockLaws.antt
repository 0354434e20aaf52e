-- ===== src/ClockLaws.antt =====
-- What holds of src/HW_models/NRF_CLOCK.c.
pub mod Pending
pub mod Expiry
