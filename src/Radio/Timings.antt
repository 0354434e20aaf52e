-- ===== src/Radio/Timings.antt =====
-- src/HW_models/NRF_RADIO_timings.c: the times that the radio needs, in microseconds; and
-- nrfra_is_HW_TIFS_enabled of NRF_RADIO_utils.c.
use ext_nrf52_hw_models.Common.{
  ℕ, Bool, true, false, ◌&&◌, ◌||◌, [], ◌∷◌, ◌==◌, if◌then◌else◌, nonzero, bit_and, get_or,
}
use ext_nrf52_hw_models.Soc.{Radio, RadioShort, end_disable, disabled_rxen, disabled_txen}
use ext_nrf52_hw_models.Soc.Env.{Env}

-- radio_timings.TX_RU_time[mod_idx][fast][HWTIFS]. A fast ramp-up has no entry with HWTIFS, which is 0.
abbrev pub tx_ru_time : (mod_idx : ℕ) → (fast hwtifs : Bool) → ℕ
tx_ru_time mod_idx true true = 0
tx_ru_time mod_idx true false = get_or (41 ∷ 40 ∷ []) mod_idx 40
tx_ru_time mod_idx false true = get_or (141 ∷ 140 ∷ []) mod_idx 130
tx_ru_time mod_idx false false = get_or (130 ∷ 129 ∷ []) mod_idx 129

abbrev pub rx_ru_time : (mod_idx : ℕ) → (fast hwtifs : Bool) → ℕ
rx_ru_time mod_idx true true = 0
rx_ru_time mod_idx true false = 40
rx_ru_time mod_idx false true = get_or (140 ∷ 140 ∷ []) mod_idx 130
rx_ru_time mod_idx false false = 129

module _ ⦃env : Env⦄ where
  -- Is the short in SHORTS?
  abbrev pub has_radio_short : RadioShort → Radio → Bool
  has_radio_short short r = nonzero (bit_and r.shorts (env.mdk.radio_shorts_msk short))

  unfoldable pub nrfra_is_hw_tifs_enabled : Radio → Bool
  nrfra_is_hw_tifs_enabled r =
      has_radio_short end_disable r
      && ((has_radio_short disabled_rxen r || has_radio_short disabled_txen r)
          && bit_and r.modecnf0 env.mdk.radio_modecnf0_ru_msk == 0)

  -- mod_idx of the three functions that have it: 1, 2 Mbps and 802.15.4.
  abbrev pub mod_idx : Radio → ℕ
  mod_idx r =
      if r.mode == env.mdk.radio_mode_ble_2mbit
      then 1
      else if r.mode == env.mdk.radio_mode_ieee802154_250kbit
      then 2
      else 0

  unfoldable pub nrfra_timings_get_rx_chain_delay : Radio → ℕ
  nrfra_timings_get_rx_chain_delay r = get_or (9 ∷ 5 ∷ []) (mod_idx r) 22

  unfoldable pub nrfra_timings_get_rampup_time : (tx_not_rx from_hw_tifs : Bool) → Radio → ℕ
  nrfra_timings_get_rampup_time tx_not_rx from_hw_tifs r =
      let fast = nonzero (bit_and r.modecnf0 1) in
      let hwtifs = if fast then false else from_hw_tifs || nrfra_is_hw_tifs_enabled r in
      if tx_not_rx then tx_ru_time (mod_idx r) fast hwtifs else rx_ru_time (mod_idx r) fast hwtifs

  unfoldable pub nrfra_timings_get_rx_rampdown_time : ℕ
  nrfra_timings_get_rx_rampdown_time = 0

  unfoldable pub nrfra_timings_get_tx_rampdown_time : Radio → ℕ
  nrfra_timings_get_tx_rampdown_time r = get_or (6 ∷ 6 ∷ []) (mod_idx r) 21

  unfoldable pub nrfra_timings_get_tx_chain_delay : ℕ
  nrfra_timings_get_tx_chain_delay = 1
