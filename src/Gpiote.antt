-- ===== src/Gpiote.antt =====
-- src/HW_models/NRF_GPIOTE.c: Events is what the GPIO calls, Tasks is what calls the GPIO.
pub mod Events
pub mod Tasks
