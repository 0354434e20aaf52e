-- ===== src/RadioLaws/Shown/Ccm.antt =====
-- STATE and radio_state of src/HW_models/NRF_RADIO.c: what the notification of the CCM keeps.
use ext_nrf52_hw_models.Common.{ℕ, Bool, true, false, not, ◌&&◌, ◌==◌, ltb, if_intro}
use ext_nrf52_hw_models.Soc.{Soc}
use ext_nrf52_hw_models.Soc.Env.{Env}
use ext_nrf52_hw_models.Blecrypt.{Decrypted, blecrypt_if_decrypt_packet}
use ext_nrf52_hw_models.Ccm.{
  with_ccm, decrypt_packet, with_micstatus, take_decrypted, signal_events_endcrypt,
  nrf_ccm_decrypt_rx, nrf_ccm_radio_received_packet,
}
use ext_nrf52_hw_models.RadioLaws.Shown.Base.{IsShown, Keeps, KeepsShown, set_irq-IsShown}

module _ ⦃env : Env⦄ (keeps : KeepsShown) where
  endcrypt-IsShown : Keeps IsShown signal_events_endcrypt
  unfolding signal_events_endcrypt
  endcrypt-IsShown s h =
      let raised = keeps.ppi _ (with_ccm (record (s.ccm) { events_endcrypt = 1 }) s) h in
      if_intro IsShown _ (set_irq-IsShown _ _ raised) raised

  decrypt_packet-IsShown :
      (header from to length : ℕ) (has_mic : Bool) (sk nonce : ℕ → ℕ) (s : Soc)
      → IsShown s
      → IsShown (blecrypt_if_decrypt_packet header from to length has_mic sk nonce s).soc
  unfolding blecrypt_if_decrypt_packet
  decrypt_packet-IsShown header from to length has_mic sk nonce s h =
      let P : Decrypted → Type 0 = λ d. IsShown d.soc in
      if_intro P (length == 0) h
        (if_intro P (has_mic && ltb length 5) h (if_intro P s.real_encryption_enabled h h))

  decrypt_rx-IsShown : (crc_error : Bool) → Keeps IsShown (nrf_ccm_decrypt_rx crc_error)
  unfolding nrf_ccm_decrypt_rx
  decrypt_rx-IsShown true s h = endcrypt-IsShown (with_micstatus 0 s) h
  decrypt_rx-IsShown false s h =
      endcrypt-IsShown (take_decrypted (decrypt_packet s))
        (decrypt_packet-IsShown _ _ _ _ _ _ _ _ h)

  pub received_packet-IsShown :
      (crc_error : Bool) → Keeps IsShown (nrf_ccm_radio_received_packet crc_error)
  unfolding nrf_ccm_radio_received_packet
  received_packet-IsShown crc_error s h =
      if_intro IsShown (not s.ccm.decryption_ongoing) {x = s} h (decrypt_rx-IsShown crc_error _ h)
