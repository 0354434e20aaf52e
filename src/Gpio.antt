-- ===== src/Gpio.antt =====
-- src/HW_models/NRF_GPIO.c and NRF_GPIO_backend.c: the pins.
mod Levels
mod Registers
mod Backend
unfoldable pub use Levels.*
unfoldable pub use Registers.*
unfoldable pub use Backend.*
