-- ===== src/CcmLaws/Packets.antt =====
-- src/HW_models/BLECrypt_if.c: where a packet goes when the library is not used.
use ext_nrf52_hw_models.Common.{
  ℕ, ◌+◌, ◌-◌, ◌^◌, ◌<◌, ◌≤◌, ◌≡◌, refl, ◌∙◌, true, false, ◌&&◌, ltb, leb, ◌==◌, arith, inl, inr,
  ◌⊎◌,
}
use ext_nrf52_hw_models.Soc.{Soc}
use ext_nrf52_hw_models.Soc.Env.{Env}
use ext_nrf52_hw_models.Memory.{store_bytes}
use ext_nrf52_hw_models.Memory.Laws.{memcpy-copied, memcpy-kept}
use ext_nrf52_hw_models.Blecrypt.{
  packet_payload_len, store_mic, blecrypt_if_encrypt_packet, blecrypt_if_decrypt_packet,
}

-- The MIC is beyond the payload.
mic-payload :
    (to length k : ℕ) (s : Soc)
    → k + 4 < length
    → (store_mic to length s).ram (to + k) ≡ s.ram (to + k)
mic-payload to length k s p =
    let d1 : (to + length - 1 == to + k) ≡ false = ground arith in
    let d2 : (to + length - 2 == to + k) ≡ false = ground arith in
    let d3 : (to + length - 3 == to + k) ≡ false = ground arith in
    let d4 : (to + length - 4 == to + k) ≡ false = ground arith in rw (d1, d2, d3, d4) refl

mic-before :
    (to length j : ℕ) (s : Soc) → j < to → 4 ≤ length → (store_mic to length s).ram j ≡ s.ram j
mic-before to length j s p q =
    let d1 : (to + length - 1 == j) ≡ false = ground arith in
    let d2 : (to + length - 2 == j) ≡ false = ground arith in
    let d3 : (to + length - 3 == j) ≡ false = ground arith in
    let d4 : (to + length - 4 == j) ≡ false = ground arith in rw (d1, d2, d3, d4) refl

payload_len :
    (length : ℕ) → 4 ≤ length → length < 2 ^ 8 → packet_payload_len length true + 4 ≡ length
payload_len length p q = omega arith

module _ ⦃env : Env⦄ (header from to length : ℕ) (sk nonce : ℕ → ℕ) (s : Soc)
    (formal : s.real_encryption_enabled ≡ false) where
  abbrev copied : Soc
  copied = store_bytes (packet_payload_len length true) to (λ k. s.ram (from + k)) s

  copied-payload :
      (k : ℕ) → k + 4 < length → length < 2 ^ 8 → copied.ram (to + k) ≡ s.ram (from + k)
  copied-payload k p q =
      let long : 4 ≤ length = omega arith in
      let len = payload_len length long q in
      let short : k < packet_payload_len length true = omega (arith, len) in
      memcpy-copied (packet_payload_len length true) to (λ i. s.ram (from + i)) s.ram k short

  copied-before : (j : ℕ) → j < to → copied.ram j ≡ s.ram j
  copied-before j p =
      let below : leb to j ≡ false = ground arith in
      let outside : (leb to j && ltb j (to + packet_payload_len length true)) ≡ false =
        rw below refl in
      memcpy-kept (packet_payload_len length true) to (λ i. s.ram (from + i)) s.ram j outside

  pub encrypt-payload :
      (k : ℕ)
      → k + 4 < length
      → length < 2 ^ 8
      → (blecrypt_if_encrypt_packet header from to length true sk nonce s).ram (to + k)
        ≡ s.ram (from + k)
  unfolding blecrypt_if_encrypt_packet
  encrypt-payload k p q =
      let some_bytes : (length == 0) ≡ false = ground arith in
      rw (some_bytes, formal) (mic-payload to length k copied p ∙ copied-payload k p q)

  pub encrypt-before :
      (j : ℕ)
      → j < to
      → (4 < length) ⊎ (length ≡ 0)
      → (blecrypt_if_encrypt_packet header from to length true sk nonce s).ram j ≡ s.ram j
  unfolding blecrypt_if_encrypt_packet
  encrypt-before j p (inr none_of_it) = rw none_of_it refl
  encrypt-before j p (inl long) =
      let some_bytes : (length == 0) ≡ false = ground arith in
      let q : 4 ≤ length = omega arith in
      rw (some_bytes, formal) (mic-before to length j copied p q ∙ copied-before j p)

  pub decrypt-payload :
      (k : ℕ)
      → k + 4 < length
      → length < 2 ^ 8
      → (blecrypt_if_decrypt_packet header from to length true sk nonce s).soc.ram (to + k)
        ≡ s.ram (from + k)
  unfolding blecrypt_if_decrypt_packet
  decrypt-payload k p q =
      let some_bytes : (length == 0) ≡ false = ground arith in
      let enough : ltb length 5 ≡ false = ground arith in
      rw (some_bytes, enough, formal) (copied-payload k p q)

  pub decrypt-before :
      (j : ℕ)
      → j < to
      → (4 < length) ⊎ (length ≡ 0)
      → (blecrypt_if_decrypt_packet header from to length true sk nonce s).soc.ram j ≡ s.ram j
  unfolding blecrypt_if_decrypt_packet
  decrypt-before j p (inr none_of_it) = rw none_of_it refl
  decrypt-before j p (inl long) =
      let some_bytes : (length == 0) ≡ false = ground arith in
      let enough : ltb length 5 ≡ false = ground arith in
      rw (some_bytes, enough, formal) (copied-before j p)

  pub decrypt-mic :
      (4 < length) ⊎ (length ≡ 0)
      → (blecrypt_if_decrypt_packet header from to length true sk nonce s).mic_error ≡ false
  unfolding blecrypt_if_decrypt_packet
  decrypt-mic (inr none_of_it) = rw none_of_it refl
  decrypt-mic (inl long) =
      let some_bytes : (length == 0) ≡ false = ground arith in
      let enough : ltb length 5 ≡ false = ground arith in rw (some_bytes, enough, formal) refl
