-- ===== src/Soc/Crypt.antt =====
-- The variables of src/HW_models/NRF_AES_CCM.c.
use ext_nrf52_hw_models.Common.{ℕ, Bool}

pub record Ccm : Type 0 where
  pub inten : ℕ  -- CCM_INTEN
  pub decryption_ongoing : Bool
  pub intenset : ℕ
  pub intenclr : ℕ
  pub enable : ℕ
  pub mode : ℕ
  pub shorts : ℕ
  pub cnfptr : ℕ
  pub inptr : ℕ
  pub outptr : ℕ
  pub headermask : ℕ
  pub maxpacketsize : ℕ
  pub micstatus : ℕ
  pub events_endksgen : ℕ
  pub events_endcrypt : ℕ
  pub tasks_ksgen : ℕ
  pub tasks_crypt : ℕ
  pub tasks_stop : ℕ
