-- ===== src/TimerLaws.antt =====
-- Properties of the model of src/HW_models/NRF_TIMER.c.
pub mod Compare
pub mod Match
pub mod Earliest
pub mod Line
pub mod Counter
