-- ===== src/CcmLaws/RoundTrip.antt =====
-- src/HW_models/NRF_AES_CCM.c: a packet that is encrypted and then decrypted.
use ext_nrf52_hw_models.Common.{
  ℕ, zero, suc, ◌+◌, ◌-◌, ◌^◌, ◌%◌, ◌<◌, ◌≤◌, ◌≡◌, refl, sym, ◌∙◌, ap, true, false, ltb, ◌==◌,
  if◌then◌else◌, if_intro, arith, List, [], ◌∷◌, ◌⊎◌,
}
use ext_nrf52_hw_models.Soc.{Soc}
use ext_nrf52_hw_models.Soc.Env.{Env}
use ext_nrf52_hw_models.Blecrypt.{blecrypt_if_encrypt_packet}
use ext_nrf52_hw_models.Ccm.{
  with_ccm, store_header, encrypted_length, encrypt_packet, decrypted_length, decrypt_packet,
}
use ext_nrf52_hw_models.CcmLaws.Packets.{
  encrypt-payload, encrypt-before, decrypt-payload, decrypt-before, decrypt-mic,
}

unfoldable pub bytes_at : (count from : ℕ) → (ℕ → ℕ) → List ℕ
bytes_at zero from ram = []
bytes_at (suc count) from ram = ram from ∷ bytes_at count (from + 1) ram

-- The packet in memory: the first byte of its header, and its payload, as long as the second says.
unfoldable pub packet_at : ℕ → (ℕ → ℕ) → ℕ × List ℕ
packet_at pointer ram = (ram pointer, bytes_at (ram (pointer + 1)) (pointer + 3) ram)

-- Two ranges of addresses do not meet.
abbrev pub Disjoint : (from count other_from other_count : ℕ) → Type 0
Disjoint from count other_from other_count =
    (from + count ≤ other_from) ⊎ (other_from + other_count ≤ from)

bytes_at-same :
    (count from to : ℕ) (a b : ℕ → ℕ)
    → ((k : ℕ) → k < count → a (from + k) ≡ b (to + k))
    → bytes_at count from a ≡ bytes_at count to b
unfolding bytes_at
bytes_at-same zero from to a b same = refl
bytes_at-same (suc count) from to a b same =
    let first : a from ≡ b to =
      let x : from + 0 ≡ from = omega arith in
      let y : to + 0 ≡ to = omega arith in ap a (sym x) ∙ same 0 (omega arith) ∙ ap b y in
    let rest : (k : ℕ) → k < count → a (from + 1 + k) ≡ b (to + 1 + k) = λ k p.
      let x : from + 1 + k ≡ from + suc k = omega arith in
      let y : to + 1 + k ≡ to + suc k = omega arith in
      ap a x ∙ same (suc k) (omega arith) ∙ ap b (sym y) in
    rw (first, bytes_at-same count (from + 1) (to + 1) a b rest) refl

packet_at-same :
    (from to : ℕ) (a b : ℕ → ℕ)
    → a from ≡ b to
    → a (from + 1) ≡ b (to + 1)
    → ((k : ℕ) → k < b (to + 1) → a (from + 3 + k) ≡ b (to + 3 + k))
    → packet_at from a ≡ packet_at to b
unfolding packet_at
packet_at-same from to a b first length same =
    rw (first, length, bytes_at-same (b (to + 1)) (from + 3) (to + 3) a b same) refl

-- What the header's two bytes leave.
header-first : (length : ℕ) (s : Soc) → (store_header length s).ram s.ccm.outptr ≡ s.ram s.ccm.inptr
header-first length s =
    let d : (s.ccm.outptr + 1 == s.ccm.outptr) ≡ false = ground arith in
    let e : (s.ccm.outptr == s.ccm.outptr) ≡ true = ground arith in rw (d, e) refl

header-length :
    (length : ℕ) (s : Soc) → (store_header length s).ram (s.ccm.outptr + 1) ≡ length % 2 ^ 8
header-length length s =
    let e : (s.ccm.outptr + 1 == s.ccm.outptr + 1) ≡ true = ground arith in rw e refl

header-kept :
    (length : ℕ) (s : Soc) (j : ℕ)
    → (j < s.ccm.outptr) ⊎ (s.ccm.outptr + 2 ≤ j)
    → (store_header length s).ram j ≡ s.ram j
header-kept length s j away =
    let d : (s.ccm.outptr + 1 == j) ≡ false = ground (arith, away) in
    let e : (s.ccm.outptr == j) ≡ false = ground (arith, away) in rw (d, e) refl

module _ ⦃env : Env⦄ where
  -- The packet that has been sent is the input of the receiver, whose configuration is the same.
  abbrev pub received : (out : ℕ) → Soc → Soc
  received out s =
      with_ccm (record (s.ccm) { inptr = s.ccm.outptr; outptr = out }) (encrypt_packet s)

  encrypt-formal :
      (header from to length : ℕ) (sk nonce : ℕ → ℕ) (s : Soc)
      → s.real_encryption_enabled ≡ false
      → (blecrypt_if_encrypt_packet header from to length true sk nonce s).real_encryption_enabled
        ≡ false
  unfolding blecrypt_if_encrypt_packet
  encrypt-formal header from to length sk nonce s h =
      let P : Soc → Type 0 = λ t. t.real_encryption_enabled ≡ false in
      if_intro P (length == 0) {x = s} h (if_intro P s.real_encryption_enabled h h)

  module _ (out : ℕ) (s : Soc) (formal : s.real_encryption_enabled ≡ false)
      (short : s.ram (s.ccm.inptr + 1) < 252)
      (in_sent : Disjoint s.ccm.inptr
        (s.ram (s.ccm.inptr + 1) + 3)
        s.ccm.outptr
        (s.ram (s.ccm.inptr + 1) + 7))
      (sent_out : Disjoint s.ccm.outptr
        (s.ram (s.ccm.inptr + 1) + 7)
        out
        (s.ram (s.ccm.inptr + 1) + 3)) where
    abbrev n : ℕ
    n = s.ram (s.ccm.inptr + 1)

    length-kind : (4 < encrypted_length s) ⊎ (encrypted_length s ≡ 0)
    length-kind = ground arith

    length-byte : encrypted_length s < 2 ^ 8
    length-byte = ground arith

    length-payload : (k : ℕ) → k < n → k + 4 < encrypted_length s
    length-payload k p = ground arith

    sent-first : (encrypt_packet s).ram s.ccm.outptr ≡ s.ram s.ccm.inptr
    sent-first =
        encrypt-before _ _ _ _ _ _ (store_header (encrypted_length s) s) formal s.ccm.outptr
          (omega arith) length-kind
        ∙ header-first (encrypted_length s) s

    sent-length : (encrypt_packet s).ram (s.ccm.outptr + 1) ≡ encrypted_length s
    sent-length =
        let byte : encrypted_length s % 2 ^ 8 ≡ encrypted_length s =
          let q = length-byte in omega (arith, q) in
        encrypt-before _ _ _ _ _ _ (store_header (encrypted_length s) s) formal (s.ccm.outptr + 1)
          (omega arith) length-kind
        ∙ header-length (encrypted_length s) s
        ∙ byte

    sent-payload :
        (k : ℕ)
        → k < n
        → (encrypt_packet s).ram (s.ccm.outptr + 3 + k) ≡ s.ram (s.ccm.inptr + 3 + k)
    sent-payload k p =
        let away : (s.ccm.inptr + 3 + k < s.ccm.outptr) ⊎ (s.ccm.outptr + 2 ≤ s.ccm.inptr + 3 + k) =
          ground arith in
        encrypt-payload _ (s.ccm.inptr + 3) (s.ccm.outptr + 3) (encrypted_length s) _ _
          (store_header (encrypted_length s) s) formal k (length-payload k p) length-byte
        ∙ header-kept (encrypted_length s) s (s.ccm.inptr + 3 + k) away

    abbrev u : Soc
    u = received out s

    abbrev u0 : Soc
    u0 = store_header (decrypted_length u) u

    u-formal : u.real_encryption_enabled ≡ false
    u-formal = encrypt-formal _ _ _ _ _ _ (store_header (encrypted_length s) s) formal

    decrypted-length : decrypted_length u ≡ n
    decrypted-length = rw sent-length (
        let e : (if ltb 4 (encrypted_length s) then encrypted_length s - 4 else encrypted_length s)
            ≡ n =
          ground arith in
        e)

    -- The length that the receiver reads once it has stored its header.
    read-length : u0.ram (s.ccm.outptr + 1) ≡ encrypted_length s
    read-length =
        let away : (s.ccm.outptr + 1 < out) ⊎ (out + 2 ≤ s.ccm.outptr + 1) = ground arith in
        header-kept (decrypted_length u) u (s.ccm.outptr + 1) away ∙ sent-length

    read-kind : (4 < u0.ram (s.ccm.outptr + 1)) ⊎ (u0.ram (s.ccm.outptr + 1) ≡ 0)
    read-kind = rw read-length length-kind

    out-first : (decrypt_packet u).soc.ram out ≡ s.ram s.ccm.inptr
    out-first =
        decrypt-before _ _ _ _ _ _ u0 u-formal out (omega arith) read-kind
        ∙ header-first (decrypted_length u) u
        ∙ sent-first

    out-length : (decrypt_packet u).soc.ram (out + 1) ≡ n
    out-length =
        let e = decrypted-length in
        let byte : decrypted_length u % 2 ^ 8 ≡ n = omega (arith, e, short) in
        decrypt-before _ _ _ _ _ _ u0 u-formal (out + 1) (omega arith) read-kind
        ∙ header-length (decrypted_length u) u
        ∙ byte

    out-payload :
        (k : ℕ) → k < n → (decrypt_packet u).soc.ram (out + 3 + k) ≡ s.ram (s.ccm.inptr + 3 + k)
    out-payload k p =
        let away : (s.ccm.outptr + 3 + k < out) ⊎ (out + 2 ≤ s.ccm.outptr + 3 + k) = ground arith in
        let e = read-length in
        let q = length-payload k p in
        let r = length-byte in
        decrypt-payload _ (s.ccm.outptr + 3) (out + 3) (u0.ram (s.ccm.outptr + 1)) _ _ u0 u-formal k
          (omega (arith, e, q)) (omega (arith, e, r))
        ∙ header-kept (decrypted_length u) u (s.ccm.outptr + 3 + k) away
        ∙ sent-payload k p

    -- Without the library: what nrf_ccm_encrypt_tx stores for a packet whose length with the MIC fits in a byte,
    -- nrf_ccm_decrypt_rx of a receiver that takes it as its input stores again as the packet that was
    -- sent (the first byte of its header, its length and its payload), with no MIC error. The packet, what
    -- is sent and the receiver's output lie apart in memory where they follow each other.
    pub encrypt-decrypt :
        ((decrypt_packet (received out s)).mic_error ≡ false)
        × (packet_at out (decrypt_packet (received out s)).soc.ram ≡ packet_at s.ccm.inptr s.ram)
    encrypt-decrypt = (
      decrypt-mic _ _ _ _ _ _ u0 u-formal read-kind,
      packet_at-same out s.ccm.inptr (decrypt_packet u).soc.ram s.ram out-first out-length
          out-payload,
    )
