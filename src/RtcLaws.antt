-- ===== src/RtcLaws.antt =====
-- What holds of src/HW_models/NRF_RTC.c.
pub mod Counter
