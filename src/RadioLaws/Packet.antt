-- ===== src/RadioLaws/Packet.antt =====
-- The copy of a packet to transmit, of src/HW_models/NRF_RADIO_utils.c.
use ext_nrf52_hw_models.Common.{
  ℕ, zero, suc, ◌+◌, ◌-◌, ◌%◌, ◌^◌, ◌<◌, ◌≡◌, refl, ◌∙◌, ap, fun_ext, false, ◌&&◌, none, some, ltb,
  leb, ◌==◌, if◌then◌else◌, nonzero, bit_and, update, for_range, arith,
}
use ext_nrf52_hw_models.Soc.{
  Radio, pcnf0_lflen, pcnf0_s0len, pcnf0_s1len, pcnf0_s1incl, pcnf0_crcinc,
}
use ext_nrf52_hw_models.Soc.Env.{Env}
use ext_nrf52_hw_models.Common.Bits.{mask_low}
use ext_nrf52_hw_models.Memory.{memcpy}
use ext_nrf52_hw_models.Memory.Laws.{memcpy_lem}
use ext_nrf52_hw_models.Radio.{
  field, at_field, nrfra_get_maxlen, nrfra_get_payload_length, nrfra_tx_copy_payload, copy_payload,
}

-- Two ranges side by side are one.
join_lem :
    (len j new old : ℕ)
    → (if leb 2 j && ltb j (2 + (len + 0)) then new else if ltb j 2 then new else old)
      ≡ (if ltb j (2 + len) then new else old)
join_lem len j new old = ground arith

-- S0 and the length, copied one after the other.
abbrev head : (ram tx_buf : ℕ → ℕ) → ℕ → ℕ
head ram tx_buf = memcpy 1 1 (λ k. ram (1 + k)) (update tx_buf 0 (ram 0))

head_lem : (ram tx_buf : ℕ → ℕ) (j : ℕ) → head ram tx_buf j ≡ (if ltb j 2 then ram j else tx_buf j)
unfolding memcpy for_range
head_lem ram tx_buf zero = refl
head_lem ram tx_buf (suc zero) = refl
head_lem ram tx_buf (suc (suc j)) =
    let beyond : ltb (suc (suc j)) 2 ≡ false = ground arith in
    let not_one : (1 == suc (suc j)) ≡ false = ground arith in
    let not_zero : (0 == suc (suc j)) ≡ false = ground arith in rw (beyond, not_one, not_zero) refl

-- And the payload after them.
packet_lem :
    (len : ℕ) (ram tx_buf : ℕ → ℕ) (j : ℕ)
    → memcpy (len + 0) 2 (λ k. ram (2 + k)) (head ram tx_buf) j
      ≡ (if ltb j (2 + len) then ram j else tx_buf j)
packet_lem len ram tx_buf j =
    let tail : memcpy (len + 0) 2 (λ k. ram (2 + k)) (head ram tx_buf) j
        ≡ (if leb 2 j && ltb j (2 + (len + 0)) then ram j else head ram tx_buf j) =
      memcpy_lem (len + 0) 2 ram (head ram tx_buf) j in
    let low = head_lem ram tx_buf j in
    tail
    ∙ ap (λ b. if leb 2 j && ltb j (2 + (len + 0)) then ram j else b) low
    ∙ join_lem len j (ram j) (tx_buf j)

module _ ⦃env : Env⦄ where
  -- The format of Bluetooth LE at 1 Mbps: S0 of a byte, a length of 8 bits and no S1.
  pub record IsBle (r : Radio) : Type 0 where
    pub s0 : field pcnf0_s0len r.pcnf0 ≡ 1
    pub lf : field pcnf0_lflen r.pcnf0 ≡ 8
    pub s1 : field pcnf0_s1len r.pcnf0 ≡ 0
    pub excludes_crc : nonzero (bit_and r.pcnf0 (env.mdk.radio_field_msk pcnf0_crcinc)) ≡ false
    pub excludes_s1 :
        nonzero (bit_and r.pcnf0 (at_field pcnf0_s1incl env.mdk.radio_pcnf0_s1incl_include)) ≡ false

  payload_length_lem :
      (ram tx_buf : ℕ → ℕ) (r : Radio)
      → IsBle r
      → ram 1 < 256
      → nrfra_get_payload_length (head ram tx_buf) r ≡ some (ram 1)
  unfolding nrfra_get_payload_length for_range memcpy
  payload_length_lem ram tx_buf r ble byte =
      rw (ble.s0, ble.lf, ble.excludes_crc) (ap some (omega arith))

  -- NFCT_MAXLEN_MAXLEN: nine bits from bit 0.
  abbrev pub ReadsMaxlen : Type 0
  ReadsMaxlen = (env.mdk.nfct_maxlen_msk ≡ 2 ^ 9 - 1) × (env.mdk.nfct_maxlen_pos ≡ 0)

  maxlen_lem : (r : Radio) → ReadsMaxlen → nrfra_get_maxlen r ≡ r.pcnf1 % 2 ^ 9
  unfolding nrfra_get_maxlen
  maxlen_lem r reads = let low = mask_low 9 r.pcnf1 in rw (reads.0, reads.1) (omega (arith, low))

  copy_payload_lem :
      (len : ℕ) (ram tx_buf : ℕ → ℕ) (r : Radio)
      → ReadsMaxlen
      → copy_payload 2 0 0 ram (head ram tx_buf) r (some len) ≡ (
          if ltb (r.pcnf1 % 2 ^ 9) len
          then none
          else some record {
            payload_len = len;
            tx_buf = λ j. if ltb j (2 + len) then ram j else tx_buf j;
            pdustat = 0;
          })
  unfolding copy_payload
  copy_payload_lem len ram tx_buf r reads = rw (maxlen_lem r reads) (
      ap
        (λ (buf : ℕ → ℕ).
          if ltb (r.pcnf1 % 2 ^ 9) len
          then none
          else some (record { payload_len = len; tx_buf = buf; pdustat = 0 }))
        (fun_ext (packet_lem len ram tx_buf)))

  -- In the format of Bluetooth LE at 1 Mbps, with a length that is a byte, and with the NFC tag's mask and
  -- position of MAXLEN, by which the code reads PCNF1, at the nine lowest bits: the copy fails where the
  -- length is above the value of these nine bits of PCNF1 (MAXLEN and the lowest bit of STATLEN); otherwise it gives the length, clears PDUSTAT, and the buffer has S0, the length and
  -- the payload as they are in memory, and what it had beyond them.
  pub tx_copy_payload_lem :
      (ram tx_buf : ℕ → ℕ) (r : Radio)
      → IsBle r
      → ReadsMaxlen
      → ram 1 < 256
      → nrfra_tx_copy_payload ram tx_buf r ≡ (
          if ltb (r.pcnf1 % 2 ^ 9) (ram 1)
          then none
          else some record {
            payload_len = ram 1;
            tx_buf = λ j. if ltb j (2 + ram 1) then ram j else tx_buf j;
            pdustat = 0;
          })
  unfolding nrfra_tx_copy_payload
  tx_copy_payload_lem ram tx_buf r ble reads byte =
      rw (ble.s0, ble.lf, ble.s1, ble.excludes_s1)
        (ap (copy_payload 2 0 0 ram (head ram tx_buf) r) (payload_length_lem ram tx_buf r ble byte)
          ∙ copy_payload_lem (ram 1) ram tx_buf r reads)
