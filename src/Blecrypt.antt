-- ===== src/Blecrypt.antt =====
-- src/HW_models/BLECrypt_if.c: the cipher of Bluetooth LE, by libCryptov1 or, without it, only in form.
use ext_nrf52_hw_models.Common.{
  ℕ, ◌+◌, ◌-◌, Bool, true, false, not, ◌&&◌, ltb, ◌==◌, if◌then◌else◌, ◌^◌, ◌%◌,
}
use ext_nrf52_hw_models.Soc.{Soc}
use ext_nrf52_hw_models.Soc.Env.{Env}
use ext_nrf52_hw_models.Memory.{store_byte, store_bytes}

-- mic_error, and the system after the call.
pub record Decrypted : Type 0 where
  pub mic_error : Bool
  pub soc : Soc

-- (uint8_t)(length - has_mic*4)
abbrev pub packet_payload_len : (length : ℕ) (has_mic : Bool) → ℕ
packet_payload_len length has_mic = (length + 2 ^ 8 - (if has_mic then 4 else 0)) % 2 ^ 8

-- 0, 'M', 'I' and 'C' as the last four of length bytes.
abbrev pub store_mic : (address length : ℕ) → Soc → Soc
store_mic address length s = store_byte (address + length - 1) 67 (
    store_byte (address + length - 2) 73
      (store_byte (address + length - 3) 77 (store_byte (address + length - 4) 0 s)))

-- Whether the library is found is the environment's.
unfoldable pub blecrypt_if_enable_real_encryption : (mode found : Bool) → Soc → Soc
blecrypt_if_enable_real_encryption mode found s = record s {
  real_encryption_enabled = mode && found;
}

module _ ⦃env : Env⦄ where
  -- To the address to, from the address from. The library stores its MIC in any case.
  unfoldable pub blecrypt_if_encrypt_packet :
      (header from to length : ℕ) (generate_mic : Bool) (sk nonce : ℕ → ℕ) → Soc → Soc
  blecrypt_if_encrypt_packet header from to length generate_mic sk nonce s =
      let payload = λ (k : ℕ). s.ram (from + k) in
      let count = packet_payload_len length generate_mic in
      let copied = store_bytes count to payload s in
      if length == 0
      then s
      else if s.real_encryption_enabled
      then store_bytes (count + 4) to (env.blecrypt_packet_encrypt header count payload sk nonce) s
      else if generate_mic
      then store_mic to length copied
      else copied

  unfoldable pub blecrypt_if_decrypt_packet :
      (header from to length : ℕ) (has_mic : Bool) (sk nonce : ℕ → ℕ) → Soc → Decrypted
  blecrypt_if_decrypt_packet header from to length has_mic sk nonce s =
      let payload = λ (k : ℕ). s.ram (from + k) in
      let count = packet_payload_len length has_mic in
      let result = env.blecrypt_packet_decrypt header count payload sk nonce (not has_mic) in
      if length == 0
      then record { mic_error = false; soc = s }
      else if has_mic && ltb length 5
      then record { mic_error = true; soc = s }
      else if s.real_encryption_enabled
      then record { mic_error = result.0 == 0; soc = store_bytes count to result.1 s }
      else record { mic_error = false; soc = store_bytes count to payload s }

  unfoldable pub blecrypt_if_aes_128 : (key plain : ℕ → ℕ) → Soc → ℕ → ℕ
  blecrypt_if_aes_128 key plain s =
      if s.real_encryption_enabled then env.blecrypt_aes_128 key plain else plain
