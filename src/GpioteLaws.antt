-- ===== src/GpioteLaws.antt =====
-- Laws of src/HW_models/NRF_GPIOTE.c.
pub mod Line
pub mod Notify
