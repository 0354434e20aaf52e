-- ===== src/Ccm.antt =====
-- src/HW_models/NRF_AES_CCM.c: the encryption and decryption of packets.
use ext_nrf52_hw_models.Common.{
  ℕ, ◌+◌, ◌-◌, ◌*◌, ◌/◌, ◌%◌, ◌^◌, Bool, true, false, not, ltb, ◌==◌, if◌then◌else◌, nonzero,
  bit_and, bit_or, clear32,
}
use ext_nrf52_hw_models.Soc.{Soc, Ccm}
use ext_nrf52_hw_models.Soc.Env.{Env}
use ext_nrf52_hw_models.Irq.{hw_irq_ctrl_set_irq}
use ext_nrf52_hw_models.Memory.{store_byte, word_at}
use ext_nrf52_hw_models.Blecrypt.{Decrypted, blecrypt_if_encrypt_packet, blecrypt_if_decrypt_packet}

-- CCM_EVENTS_ENDKSGEN and CCM_EVENTS_ENDCRYPT of NRF_PPI.h.
abbrev pub ccm_events_endksgen : ℕ
ccm_events_endksgen = 64

abbrev pub ccm_events_endcrypt : ℕ
ccm_events_endcrypt = 65

abbrev pub with_ccm : Ccm → Soc → Soc
with_ccm c s = record s { ccm = c }

unfoldable pub nrf_aes_ccm_init : Ccm → Ccm
nrf_aes_ccm_init c = record {
  inten = 0;
  decryption_ongoing = false;
  intenset = 0;
  intenclr = 0;
  enable = 0;
  mode = 1;
  shorts = 0;
  cnfptr = 0;
  inptr = 0;
  outptr = 0;
  headermask = 0xe3;
  maxpacketsize = 0xfb;
  micstatus = 0;
  events_endksgen = 0;
  events_endcrypt = 0;
  tasks_ksgen = 0;
  tasks_crypt = 0;
  tasks_stop = 0;
}

-- 39 bits of the counter, the direction above them, and the initialisation vector.
unfoldable pub nonce_calc : (iv : ℕ → ℕ) (packet_counter packet_direction : ℕ) → ℕ → ℕ
nonce_calc iv packet_counter packet_direction i =
    if ltb i 4
    then packet_counter / 2 ^ (8 * i) % 2 ^ 8
    else if i == 4
    then packet_counter / 2 ^ 32 % 2 ^ 7 + (if packet_direction == 1 then 128 else 0)
    else iv (i - 5)

-- The nonce of the configuration at an address: the counter of 39 bits at 16, the direction at 24 and
-- the vector at 25. The session key stands at 0.
abbrev pub ccm_nonce : (cnfptr : ℕ) → (ram : ℕ → ℕ) → ℕ → ℕ
ccm_nonce cnfptr ram =
    nonce_calc (λ k. ram (cnfptr + 25 + k)) (word_at 8 (cnfptr + 16) ram % 2 ^ 39)
      (ram (cnfptr + 24) % 2)

-- The first byte of the header, and a length, go out.
abbrev pub store_header : (length : ℕ) → Soc → Soc
store_header length s =
    store_byte (s.ccm.outptr + 1) (length % 2 ^ 8) (store_byte s.ccm.outptr (s.ram s.ccm.inptr) s)

unfoldable pub nrf_ccm_task_stop : Ccm → Ccm
nrf_ccm_task_stop c = record c { decryption_ongoing = false }

unfoldable pub nrf_ccm_regw_sideeffects_intenset : Ccm → Ccm
nrf_ccm_regw_sideeffects_intenset c =
    let enabled = bit_or c.inten c.intenset in
    if nonzero c.intenset then record c { inten = enabled; intenset = enabled } else c

unfoldable pub nrf_ccm_regw_sideeffects_intenclr : Ccm → Ccm
nrf_ccm_regw_sideeffects_intenclr c =
    let enabled = clear32 c.inten c.intenclr in
    if nonzero c.intenclr then record c { inten = enabled; intenset = enabled; intenclr = 0 } else c

unfoldable pub nrf_ccm_regw_sideeffects_tasks_stop : Ccm → Ccm
nrf_ccm_regw_sideeffects_tasks_stop c =
    if nonzero c.tasks_stop then nrf_ccm_task_stop (record c { tasks_stop = 0 }) else c

module _ ⦃env : Env⦄ where
  unfoldable pub signal_events_endcrypt : Soc → Soc
  signal_events_endcrypt s =
      let s1 =
        env.nrf_ppi_event ccm_events_endcrypt
          (with_ccm (record (s.ccm) { events_endcrypt = 1 }) s) in
      if nonzero (bit_and s1.ccm.inten env.mdk.ccm_intenset_endcrypt_msk)
      then hw_irq_ctrl_set_irq env.mdk.ccm_aar_irqn s1
      else s1

  -- The length of the output has that of the MIC.
  abbrev pub encrypted_length : Soc → ℕ
  encrypted_length s =
      let length = s.ram (s.ccm.inptr + 1) in if ltb 0 length then length + 4 else length

  -- nrf_ccm_encrypt_tx without the event.
  abbrev pub encrypt_packet : Soc → Soc
  encrypt_packet s =
      let length = encrypted_length s in
      let t = store_header length s in
      let cnf = s.ccm.cnfptr in
      blecrypt_if_encrypt_packet (bit_and (t.ram t.ccm.inptr) t.ccm.headermask) (t.ccm.inptr + 3)
        (t.ccm.outptr + 3) length true (λ k. t.ram (cnf + k)) (ccm_nonce cnf t.ram) t

  unfoldable pub nrf_ccm_encrypt_tx : Soc → Soc
  nrf_ccm_encrypt_tx s = signal_events_endcrypt (encrypt_packet s)

  abbrev pub decrypted_length : Soc → ℕ
  decrypted_length s =
      let length = s.ram (s.ccm.inptr + 1) in if ltb 4 length then length - 4 else length

  abbrev pub decrypt_packet : Soc → Decrypted
  decrypt_packet s =
      let t = store_header (decrypted_length s) s in
      let cnf = s.ccm.cnfptr in
      blecrypt_if_decrypt_packet (bit_and (t.ram t.ccm.inptr) t.ccm.headermask) (t.ccm.inptr + 3)
        (t.ccm.outptr + 3) (t.ram (t.ccm.inptr + 1)) true (λ k. t.ram (cnf + k))
        (ccm_nonce cnf t.ram) t

  abbrev pub with_micstatus : ℕ → Soc → Soc
  with_micstatus micstatus s = with_ccm (record (s.ccm) { micstatus = micstatus }) s

  -- MICSTATUS = !mic_error
  abbrev pub take_decrypted : Decrypted → Soc
  take_decrypted d = with_micstatus (if d.mic_error then 0 else 1) d.soc

  unfoldable pub nrf_ccm_decrypt_rx : (crc_error : Bool) → Soc → Soc
  nrf_ccm_decrypt_rx crc_error s =
      signal_events_endcrypt
        (if crc_error then with_micstatus 0 s else take_decrypted (decrypt_packet s))

  unfoldable pub nrf_ccm_task_crypt : Soc → Soc
  nrf_ccm_task_crypt s =
      let mode = bit_and s.ccm.mode env.mdk.ccm_mode_mode_msk / 2 ^ env.mdk.ccm_mode_mode_pos in
      if not (s.ccm.enable == env.mdk.ccm_enable_enabled)
      then s
      else if mode == env.mdk.ccm_mode_mode_encryption
      then nrf_ccm_encrypt_tx s
      else with_ccm (record (s.ccm) { decryption_ongoing = true }) s

  unfoldable pub signal_events_endksgen : Soc → Soc
  signal_events_endksgen s =
      let s1 =
        env.nrf_ppi_event ccm_events_endksgen
          (with_ccm (record (s.ccm) { events_endksgen = 1 }) s) in
      let s2 =
        if nonzero (bit_and s1.ccm.inten env.mdk.ccm_intenset_endksgen_msk)
        then hw_irq_ctrl_set_irq env.mdk.ccm_aar_irqn s1
        else s1 in
      if nonzero (bit_and s2.ccm.shorts env.mdk.ccm_shorts_endksgen_crypt_msk)
      then nrf_ccm_task_crypt s2
      else s2

  unfoldable pub nrf_ccm_task_ksgen : Soc → Soc
  nrf_ccm_task_ksgen s =
      if not (s.ccm.enable == env.mdk.ccm_enable_enabled) then s else signal_events_endksgen s

  unfoldable pub nrf_ccm_regw_sideeffects_tasks_ksgen : Soc → Soc
  nrf_ccm_regw_sideeffects_tasks_ksgen s =
      if nonzero s.ccm.tasks_ksgen
      then nrf_ccm_task_ksgen (with_ccm (record (s.ccm) { tasks_ksgen = 0 }) s)
      else s

  unfoldable pub nrf_ccm_regw_sideeffects_tasks_crypt : Soc → Soc
  nrf_ccm_regw_sideeffects_tasks_crypt s =
      if nonzero s.ccm.tasks_crypt
      then nrf_ccm_task_crypt (with_ccm (record (s.ccm) { tasks_crypt = 0 }) s)
      else s

  unfoldable pub nrf_ccm_radio_received_packet : (crc_error : Bool) → Soc → Soc
  nrf_ccm_radio_received_packet crc_error s =
      if not s.ccm.decryption_ongoing
      then s
      else nrf_ccm_decrypt_rx crc_error (with_ccm (record (s.ccm) { decryption_ongoing = false }) s)
