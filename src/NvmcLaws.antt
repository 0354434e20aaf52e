-- ===== src/NvmcLaws.antt =====
-- Properties of the model of src/HW_models/NRF_NVMC.c.
pub mod Ready
pub mod Erase
pub mod Write
