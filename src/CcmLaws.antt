-- ===== src/CcmLaws.antt =====
-- Laws of src/HW_models/NRF_AES_CCM.c and BLECrypt_if.c.
pub mod Packets
pub mod RoundTrip
pub mod Nonce
