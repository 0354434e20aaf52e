-- ===== src/Radio/Requests.antt =====
-- src/HW_models/NRF_RADIO_utils.c: the requests to the physical layer and the conversions of levels, and
-- the conversions of time of src/HW_models/NRF_HWLowL.c.
use ext_nrf52_hw_models.Common.{
  ℕ, ◌+◌, ◌-◌, ◌*◌, ◌/◌, ◌%◌, ◌^◌, Bool, ◌||◌, ltb, ◌==◌, Option, none, some, if◌then◌else◌,
  bit_and, bit_or, u32, add64,
}
use ext_nrf52_hw_models.Common.Int.{ℤ, pos, negsuc, pos_part, neg_part, sub_ℕ}
use ext_nrf52_hw_models.Soc.{
  Soc, Radio, TxRequest, RxRequest, CcaRequest, Modulation, mod_ble, mod_ble2m, mod_154_250k_dss,
  mod_other, ccactrl_ccamode, ccactrl_ccaedthres, edcnt_edcnt, frequency_frequency, prefix0_ap0,
  sfd_sfd, txpower_txpower,
}
use ext_nrf52_hw_models.Soc.Env.{Env}
use ext_nrf52_hw_models.Radio.Packet.{field}

-- The format that a mode has on air, as nrfra_prep_rx_request and start_Tx set it out; bits_per_us is
-- times four.
pub record AirFormat : Type 0 where
  pub preamble_length : ℕ
  pub address_length : ℕ
  pub tx_header_length : ℕ
  pub rx_header_length : ℕ
  pub quarter_bits_per_us : ℕ
  pub modulation : Modulation
  pub pre_trunc : ℕ
  pub sync_threshold : ℕ

module _ ⦃env : Env⦄ where
  unfoldable pub hwll_phy_time_from_dev : ℕ → ℕ
  hwll_phy_time_from_dev d_t =
      if d_t == env.time_never then env.time_never else env.phy_time_from_dev d_t

  unfoldable pub hwll_dev_time_from_phy : ℕ → ℕ
  hwll_dev_time_from_phy p_t = if p_t == env.time_never then p_t else env.dev_time_from_phy p_t

  -- -BS_MAX(value, -127), and not below 0.
  unfoldable pub nrfra_rssi_value_to_modem_format : ℤ → ℕ
  nrfra_rssi_value_to_modem_format rssi_value =
      let level = neg_part rssi_value in
      (if ltb level (127 * env.dbm_scale) then level else 127 * env.dbm_scale) / env.dbm_scale

  unfoldable pub nrfra_dbm_to_modem_lqiformat : ℤ → ℕ
  nrfra_dbm_to_modem_lqiformat rssi_value =
      let level = pos_part rssi_value + 93 * env.dbm_scale - neg_part rssi_value in
      (if ltb level (255 * env.dbm_scale) then level else 255 * env.dbm_scale) / env.dbm_scale

  unfoldable pub nrfra_lqiformat_to_dbm : ℕ → ℤ
  nrfra_lqiformat_to_dbm value = sub_ℕ value 93

  -- One of the four modes of Bluetooth LE.
  abbrev pub is_ble_mode : Radio → Bool
  is_ble_mode r =
      r.mode == env.mdk.radio_mode_ble_1mbit
      || (r.mode == env.mdk.radio_mode_ble_2mbit
          || (r.mode == env.mdk.radio_mode_ble_lr125kbit
              || r.mode == env.mdk.radio_mode_ble_lr500kbit))

  -- Other modes leave the variables unset, and have been refused by nrfra_check_packet_conf.
  abbrev pub air_format : Radio → AirFormat
  air_format r =
      if r.mode == env.mdk.radio_mode_ble_1mbit
      then record {
        preamble_length = 1;
        address_length = 4;
        tx_header_length = 2;
        rx_header_length = 2;
        quarter_bits_per_us = 4;
        modulation = mod_ble;
        pre_trunc = 0;
        sync_threshold = 2;
      }
      else if r.mode == env.mdk.radio_mode_ble_2mbit
      then record {
        preamble_length = 2;
        address_length = 4;
        tx_header_length = 2;
        rx_header_length = 2;
        quarter_bits_per_us = 8;
        modulation = mod_ble2m;
        pre_trunc = 0;
        sync_threshold = 2;
      }
      else if r.mode == env.mdk.radio_mode_ieee802154_250kbit
      then record {
        preamble_length = 4;
        address_length = 1;
        tx_header_length = 1;
        rx_header_length = 0;
        quarter_bits_per_us = 1;
        modulation = mod_154_250k_dss;
        pre_trunc = 104;
        sync_threshold = 0;
      }
      else record {
        preamble_length = 0;
        address_length = 0;
        tx_header_length = 0;
        rx_header_length = 0;
        quarter_bits_per_us = r.quarter_bits_per_us;
        modulation = mod_other;
        pre_trunc = 0;
        sync_threshold = 0;
      }

  -- The time that bytes take on air: 8 bits each, at so many bits per four microseconds.
  abbrev pub air_time : (quarter_bits_per_us bytes : ℕ) → ℕ
  air_time quarter_bits_per_us bytes = bytes * 32 / quarter_bits_per_us

  abbrev pub phy_address : Radio → ℕ
  phy_address r =
      if is_ble_mode r
      then bit_or (u32 (bit_and r.prefix0 (env.mdk.radio_field_msk prefix0_ap0) * 2 ^ 24))
          (r.base0 / 2 ^ 8)
      else if r.mode == env.mdk.radio_mode_ieee802154_250kbit
      then bit_and r.sfd (env.mdk.radio_field_msk sfd_sfd)
      else 0

  abbrev pub center_freq : Radio → ℕ
  center_freq r =
      env.p2g4_freq_from_d (bit_and r.frequency (env.mdk.radio_field_msk frequency_frequency))

  -- The abort structure is not filled.
  unfoldable pub nrfra_prep_rx_request : Soc → RxRequest
  nrfra_prep_rx_request s =
      let r = s.radio in
      let f = air_format r in
      record {
        start_time = hwll_phy_time_from_dev (env.tm_get_abs_time s);
        scan_duration = 0xffff_ffff;
        forced_packet_duration = 0xffff_ffff;
        error_calc_rate = f.quarter_bits_per_us * 250000;
        antenna_gain = 0;
        header_duration = air_time f.quarter_bits_per_us f.rx_header_length;
        pream_and_addr_duration =
            air_time f.quarter_bits_per_us (f.preamble_length + f.address_length);
        header_threshold = 0;
        sync_threshold = f.sync_threshold;
        acceptable_pre_truncation = f.pre_trunc;
        n_addr = 1;
        address = phy_address r;
        abort = r.fsm.rx_status.rx_req.abort;
        modulation = f.modulation;
        center_freq = center_freq r;
        coding_rate = 0;
        resp_type = 0;
      }

  -- (int8_t) of the field.
  abbrev pub tx_power : Radio → ℤ
  tx_power r =
      let level = bit_and r.txpower (env.mdk.radio_field_msk txpower_txpower) % 2 ^ 8 in
      if ltb level 128 then pos level else negsuc (255 - level)

  unfoldable pub nrfra_prep_tx_request : (packet_size packet_duration : ℕ) → Soc → TxRequest
  nrfra_prep_tx_request packet_size packet_duration s =
      let r = s.radio in
      let start_time = hwll_phy_time_from_dev (env.tm_get_abs_time s) in
      record {
        start_tx_time = start_time;
        end_tx_time = add64 start_time packet_duration;
        start_packet_time = start_time;
        end_packet_time = add64 start_time packet_duration;
        phy_address = phy_address r;
        abort = r.fsm.tx_status.tx_req.abort;
        modulation = (air_format r).modulation;
        center_freq = center_freq r;
        power_level = env.p2g4_power_from_d (tx_power r);
        packet_size = packet_size;
        coding_rate = 0;
      }

  abbrev pub cca_mode : Radio → ℕ
  cca_mode r = field ccactrl_ccamode r.ccactrl

  -- rssi_threshold, mod_threshold and stop_when_found in a CCA mode; none is bs_trace_error.
  abbrev pub cca_thresholds : Radio → Option (ℕ × ℕ × ℕ)
  cca_thresholds r =
      let from_dbm = env.p2g4_rssi_value_from_dbm in
      let mode = cca_mode r in
      let energy = from_dbm (nrfra_lqiformat_to_dbm (field ccactrl_ccaedthres r.ccactrl)) in
      let carrier = from_dbm (negsuc 109) in
      let unused = from_dbm (pos 100) in
      if mode == env.mdk.radio_ccactrl_ccamode_edmode
      then some (energy, unused, 0)
      else if mode == env.mdk.radio_ccactrl_ccamode_carriermode
      then some (unused, carrier, 1)
      else if mode == env.mdk.radio_ccactrl_ccamode_carrierandedmode
          || mode == env.mdk.radio_ccactrl_ccamode_carrieroredmode
      then some (energy, carrier, 1)
      else if mode == env.mdk.radio_ccactrl_ccamode_edmodetest1
      then some (energy, unused, 2)
      else none

  abbrev pub cca_request : (scan_duration : ℕ) → Option (ℕ × ℕ × ℕ) → Soc → Option CcaRequest
  cca_request scan_duration none s = none
  cca_request scan_duration (some (rssi_threshold, mod_threshold, stop_when_found)) s =
      some record {
        start_time = hwll_phy_time_from_dev (env.tm_get_abs_time s);
        scan_duration = scan_duration;
        scan_period = 32;
        antenna_gain = 0;
        center_freq = center_freq s.radio;
        modulation = mod_154_250k_dss;
        rssi_threshold = rssi_threshold;
        mod_threshold = mod_threshold;
        stop_when_found = stop_when_found;
        abort = s.radio.fsm.cca_status.cca_req.abort;
      }

  -- Only for 802.15.4; none is bs_trace_error.
  unfoldable pub nrfra_prep_cca_request : (cca_not_ed : Bool) → Soc → Option CcaRequest
  nrfra_prep_cca_request cca_not_ed s =
      let r = s.radio in
      let unused = env.p2g4_rssi_value_from_dbm (pos 100) in
      let ed_duration = 128 * (bit_and r.edcnt (env.mdk.radio_field_msk edcnt_edcnt) + 1) in
      if r.mode == env.mdk.radio_mode_ieee802154_250kbit
      then if cca_not_ed
        then cca_request 128 (cca_thresholds r) s
        else cca_request ed_duration (some (unused, unused, 0)) s
      else none
