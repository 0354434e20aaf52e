-- ===== src/TopLaws.antt =====
-- Laws of src/HW_models/NRF_HW_model_top.c.
pub mod Choose
pub mod Scheduled
pub mod Dispatch
pub mod Handlers
pub mod Reached
pub mod Initialized
