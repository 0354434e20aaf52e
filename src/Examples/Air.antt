-- ===== src/Examples/Air.antt =====
-- A radio that counts bits, with a normal ramp-up.
use ext_nrf52_hw_models.Common.{
  ℕ, ◌+◌, ◌%◌, ◌≡◌, ◌<◌, ◌^◌, refl, true, none, some, arith, for_range, ltb, if◌then◌else◌, ◌==◌,
  false,
}
use ext_nrf52_hw_models.Soc.{Soc, Radio}
use ext_nrf52_hw_models.Examples.Setup.{bench, never, rest, idle_radio}
use ext_nrf52_hw_models.Radio.{
  nrf_radio_tasks_bcstart, nrf_radio_tasks_bcstop, nrf_radio_regw_sideeffects_bcc,
  nrfra_timings_get_rampup_time, nrfra_tx_copy_payload, nrfra_check_packet_conf,
  nrfra_check_802154_conf, nrfra_get_payload_length, nrfra_get_crc_length,
}
use ext_nrf52_hw_models.Radio.{schedule_tx, packet_duration}
use ext_nrf52_hw_models.RadioLaws.Air.{EndsAt, timing, schedule_tx-EndsAt}
use ext_nrf52_hw_models.RadioLaws.Packet.{IsBle, tx_copy_payload_lem}
use ext_nrf52_hw_models.RadioLaws.Rampup.{IsWithin, rampup_time-IsWithin}
use ext_nrf52_hw_models.RadioLaws.Bitcounter.{write_bcc, bcstart-bcc-bcstop}

-- A count of 40 bits at 1 Mbps.
abbrev counting : Soc
counting = record rest { radio = record idle_radio { bcc = 40 } }

-- A fast ramp-up.
abbrev fast_radio : Radio
fast_radio = record idle_radio { modecnf0 = 1 }

fast_rampup : nrfra_timings_get_rampup_time ⦃env = bench⦄ true true fast_radio ≡ 41
unfolding nrfra_timings_get_rampup_time
fast_rampup = refl

rampup_time-IsWithin_example :
    IsWithin 40 41 (nrfra_timings_get_rampup_time ⦃env = bench⦄ true true fast_radio)
rampup_time-IsWithin_example = rampup_time-IsWithin ⦃env = bench⦄ true true fast_radio

-- BCC becomes 80 at the time 1010: the match is at 1080.
bcstart-bcc-bcstop_example :
    let written = write_bcc 1010 80 (nrf_radio_tasks_bcstart counting) in
    let s' = nrf_radio_regw_sideeffects_bcc ⦃env = bench⦄ written in
    let direct = (nrf_radio_tasks_bcstart (write_bcc 1000 80 counting)).timer_radio_bitcounter in
    (s'.timer_radio_bitcounter ≡ (if ltb direct 1010 then never else direct))
    × ((nrf_radio_tasks_bcstop ⦃env = bench⦄ s').radio.bit_counter_running ≡ false)
    × ((nrf_radio_tasks_bcstop ⦃env = bench⦄ s').timer_radio_bitcounter ≡ never)
bcstart-bcc-bcstop_example = bcstart-bcc-bcstop ⦃env = bench⦄ counting 1010 80 refl

-- A packet of 5 bytes, where 37 are allowed.
abbrev ble_radio : Radio
ble_radio = record idle_radio { mode = 3; pcnf0 = 0x108; pcnf1 = 37 }

abbrev ram : ℕ → ℕ
ram k = if k == 1 then 5 else 0xa0 + k

packet-IsBle : IsBle ⦃env = bench⦄ ble_radio
packet-IsBle = record { s0 = refl; lf = refl; s1 = refl; excludes_crc = refl; excludes_s1 = refl }

tx_copy_payload_lem_example : nrfra_tx_copy_payload ⦃env = bench⦄ ram (λ k. 0) ble_radio ≡ (
    if ltb (37 % 2 ^ 9) 5
    then none
    else some record { payload_len = 5; tx_buf = λ j. if ltb j 7 then ram j else 0; pdustat = 0 })
tx_copy_payload_lem_example =
    tx_copy_payload_lem ⦃env = bench⦄ ram (λ k. 0) ble_radio packet-IsBle (refl, refl) (omega arith)

-- The 802.15.4 format, and a length that includes a checksum of two bytes.
abbrev short_range_radio : Radio
short_range_radio = record idle_radio { mode = 15; pcnf0 = 0x6000008; crccnf = 2 }

short_range_supported : nrfra_check_packet_conf ⦃env = bench⦄ short_range_radio ≡ true
unfolding nrfra_check_packet_conf nrfra_check_802154_conf
short_range_supported = refl

short_range_length : nrfra_get_payload_length ⦃env = bench⦄ (λ k. 9) short_range_radio ≡ some 7
unfolding nrfra_get_payload_length nrfra_get_crc_length for_range
short_range_length = refl

short_fits : 1000 + packet_duration ⦃env = bench⦄ 5 short_range_radio < 2 ^ 64
unfolding nrfra_get_crc_length
short_fits = omega arith

-- Five bytes at 802.15.4, at the time 1000, take 416 microseconds with what surrounds them.
schedule_tx-EndsAt_example :
    EndsAt ⦃env = bench⦄
      (1000 + packet_duration ⦃env = bench⦄ 5 short_range_radio)
      (timing (schedule_tx ⦃env = bench⦄ 5 short_range_radio rest))
schedule_tx-EndsAt_example =
    schedule_tx-EndsAt ⦃env = bench⦄ 5 short_range_radio rest short_range_supported short_fits
