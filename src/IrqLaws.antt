-- ===== src/IrqLaws.antt =====
-- Laws of src/HW_models/irq_ctrl.c.
pub mod Pending
pub mod Winner
pub mod Lines
pub mod Apart
pub mod Level
pub mod Calls
