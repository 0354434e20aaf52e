-- ===== src/GpioLaws.antt =====
-- Laws of src/HW_models/NRF_GPIO.c and NRF_GPIO_backend.c.
pub mod Sense
pub mod Drive
