-- ===== src/RadioLaws/Air.antt =====
-- src/HW_models/NRF_RADIO.c: the times of a transmission, of start_Tx and of the request that it makes.
use ext_nrf52_hw_models.Common.{
  ℕ, ◌+◌, ◌^◌, ◌≡◌, ◌≤◌, ◌<◌, refl, ◌∙◌, ap, true, Bool-cases, inl, inr, ◌==◌, arith, add64, sub64,
}
use ext_nrf52_hw_models.Soc.{Soc, Radio, TxStatus}
use ext_nrf52_hw_models.Soc.Env.{Env}
use ext_nrf52_hw_models.TopLaws.Scheduled.{IsApart, find_next-apart}
use ext_nrf52_hw_models.Radio.{
  AirFormat, air_format, nrfra_check_packet_conf, air_time, schedule_tx, packet_duration,
  nrfra_get_crc_length, nrfra_timings_get_tx_chain_delay, nrfra_set_timer_radio,
}

-- The rates, by which 32 divides.
data IsRate : ℕ → Type 0 where
  rate_1 : IsRate 1
  rate_4 : IsRate 4
  rate_8 : IsRate 8

abbrev pub timing : Soc → ℕ × TxStatus
timing s = (s.timer_radio, s.radio.fsm.tx_status)

timing-IsApart : IsApart timing
timing-IsApart = record { apart = λ s c m n k h. refl }

-- Three segments one after the other, or one as long.
segments :
    (now a b c d : ℕ)
    → a + b + c ≡ d
    → 0 < a
    → now + d < 2 ^ 64
    → (sub64 (add64 now a) 1 ≤ add64 (sub64 (add64 now a) 1) b)
      × ((add64 (sub64 (add64 now a) 1) b ≤ add64 (add64 (sub64 (add64 now a) 1) b) c)
          × (add64 (add64 (sub64 (add64 now a) 1) b) c + 1 ≡ now + d))
segments now a b c d e positive fits = (
  omega (arith, e, positive, fits),
  (omega (arith, e, positive, fits), omega (arith, e, positive, fits)),
)

module _ ⦃env : Env⦄ where
  air_time-add : (q a b : ℕ) → IsRate q → air_time q a + air_time q b ≡ air_time q (a + b)
  air_time-add _ a b rate_1 = omega arith
  air_time-add _ a b rate_4 = omega arith
  air_time-add _ a b rate_8 = omega arith

  air_time-positive : (q a : ℕ) → IsRate q → 0 < a → 0 < air_time q a
  air_time-positive _ a rate_1 p = omega arith
  air_time-positive _ a rate_4 p = omega arith
  air_time-positive _ a rate_8 p = omega arith

  -- The rate divides 32, and there is an address.
  abbrev IsTimed : AirFormat → Type 0
  IsTimed f = IsRate f.quarter_bits_per_us × (0 < f.preamble_length + f.address_length)

  air_format-IsTimed : (r : Radio) → nrfra_check_packet_conf r ≡ true → IsTimed (air_format r)
  unfolding nrfra_check_packet_conf
  air_format-IsTimed r ok = elim (Bool-cases (r.mode == env.mdk.radio_mode_ble_1mbit)) [
    | inl one ↦ rw one (rate_4, omega arith)
    | inr not_one ↦ elim (Bool-cases (r.mode == env.mdk.radio_mode_ble_2mbit)) [
      | inl two ↦ rw (not_one, two) (rate_8, omega arith)
      | inr not_two ↦ elim (Bool-cases (r.mode == env.mdk.radio_mode_ieee802154_250kbit)) [
        | inl zigbee ↦ rw (not_one, not_two, zigbee) (rate_1, omega arith)
        | inr none_of_them ↦ absurd (ground arith)
      ]
    ]
  ]

  -- The three parts of a packet take as long as the whole.
  packet_duration-parts :
      (payload_len : ℕ) (r : Radio)
      → IsTimed (air_format r)
      → air_time
            (air_format r).quarter_bits_per_us
            ((air_format r).preamble_length + (air_format r).address_length)
          + air_time
              (air_format r).quarter_bits_per_us
              ((air_format r).tx_header_length + payload_len)
          + air_time (air_format r).quarter_bits_per_us (nrfra_get_crc_length r)
        ≡ packet_duration payload_len r
  packet_duration-parts payload_len r timed =
      let f = air_format r in
      let q = f.quarter_bits_per_us in
      let start = f.preamble_length + f.address_length in
      let middle = f.tx_header_length + payload_len in
      let regroup : start + middle + nrfra_get_crc_length r
          ≡ start + f.tx_header_length + payload_len + nrfra_get_crc_length r =
        omega arith in
      ap (λ t. t + air_time q (nrfra_get_crc_length r)) (air_time-add q start middle timed.0)
      ∙ air_time-add q (start + middle) (nrfra_get_crc_length r) timed.0
      ∙ ap (air_time q) regroup

  -- A wait for the end of the address, the ends one after the other, and the last at a time.
  abbrev pub EndsAt : (time : ℕ) → ℕ × TxStatus → Type 0
  EndsAt time p =
      (p.0 ≡ p.1.address_end_time)
      × ((p.1.address_end_time ≤ p.1.payload_end_time)
          × ((p.1.payload_end_time ≤ p.1.crc_end_time)
              × (p.1.crc_end_time + nrfra_timings_get_tx_chain_delay ≡ time)))

  set_timer-EndsAt :
      (time t : ℕ) (s : Soc)
      → EndsAt time (t, s.radio.fsm.tx_status)
      → EndsAt time (timing (nrfra_set_timer_radio t s))
  unfolding nrfra_set_timer_radio
  set_timer-EndsAt time t s ends =
      let e = find_next-apart timing timing-IsApart (record s { timer_radio = t }) in
      rw (ap (λ p. p.0) e, ap (λ p. p.1) e) ends

  -- When start_Tx has made its request, for a packet of a configuration that it accepts and where the sum
  -- of the time and the packet's duration fits in 64 bits: Timer_RADIO waits for the end of the address;
  -- the ends of the address, of the payload and of the checksum follow each other; and the last, with the
  -- delay of the transmit chain, is the duration that the physical layer has been told after now.
  pub schedule_tx-EndsAt :
      (payload_len : ℕ) (r : Radio) (s : Soc)
      → nrfra_check_packet_conf r ≡ true
      → s.now + packet_duration payload_len r < 2 ^ 64
      → EndsAt (s.now + packet_duration payload_len r) (timing (schedule_tx payload_len r s))
  unfolding schedule_tx nrfra_timings_get_tx_chain_delay
  schedule_tx-EndsAt payload_len r s ok fits =
      let timed = air_format-IsTimed r ok in
      let q = (air_format r).quarter_bits_per_us in
      let bounds =
        segments s.now _ _ _ (packet_duration payload_len r)
          (packet_duration-parts payload_len r timed) (air_time-positive q _ timed.0 timed.1)
          fits in
      set_timer-EndsAt (s.now + packet_duration payload_len r) _ _ (refl, bounds)
