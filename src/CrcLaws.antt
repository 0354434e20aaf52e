-- ===== src/CrcLaws.antt =====
-- Laws of src/HW_models/crc.c: the reversals, the lookup tables against polynomial division, and
-- the check that a receiver makes.
pub mod Reverse
pub mod Division
pub mod Residue
