-- ===== src/Examples.antt =====
-- The models at concrete inputs: the constants of the nRF52833 and runs of each component.
mod Setup
mod Checksums
mod Interrupts
mod Timing
mod Flash
mod Scheduler
mod Routing
mod Pins
mod Air
mod Ramps
mod Crypt
mod Oscillators
