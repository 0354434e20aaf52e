-- ===== src/Radio/Machine.antt =====
-- src/HW_models/NRF_RADIO.c: the main state machine, which Timer_RADIO drives, the answer to the physical
-- layer at the end of the address, and the reset.
use ext_nrf52_hw_models.Common.{
  ℕ, ◌+◌, ◌/◌, ◌%◌, ◌^◌, Bool, true, false, not, ◌&&◌, Option, none, some, ◌==◌, if◌then◌else◌,
  nonzero, bit_and, for_range,
}
use ext_nrf52_hw_models.Soc.{
  Soc, Radio, RadioState, rad_disabled, rad_rxru, rad_rxidle, rad_rx, rad_rxdisable, rad_txru,
  rad_txidle, rad_txstarting, rad_tx, rad_txdisable, rad_cca_ed, SubState, sub_state_invalid,
  tx_wait_for_address_end, tx_wait_for_payload_end, tx_wait_for_crc_end, rx_wait_for_address_end,
  rx_wait_for_payload_end, rx_wait_for_crc_end, TifsState, tifs_disable, tifs_triggering_trx_en,
  AbortState, no_pending_abort_reeval, tx_abort_reeval, rx_abort_reeval, cca_abort_reeval,
}
use ext_nrf52_hw_models.Soc.Env.{Env}
use ext_nrf52_hw_models.Top.{nrf_hw_find_next_timer_to_trigger}
use ext_nrf52_hw_models.Irq.{trace_error}
use ext_nrf52_hw_models.Memory.{word_at}
use ext_nrf52_hw_models.Ccm.{nrf_ccm_radio_received_packet}
use ext_nrf52_hw_models.Radio.Tasks.{
  with_radio, nrf_radio_bitcounter_reset, nrf_radio_stop_bit_counter,
}
use ext_nrf52_hw_models.Radio.Requests.{nrfra_rssi_value_to_modem_format}
use ext_nrf52_hw_models.Radio.Abort.{
  with_fsm, enter, in_state, nrfra_set_timer_radio, nrfra_set_timer_abort_reeval, abort_if_needed,
  new_abort,
}
use ext_nrf52_hw_models.Radio.Transmit.{start_tx, tx_abort_eval_respond}
use ext_nrf52_hw_models.Radio.Receive.{
  handle_rx_response, take_reply, ask_rx, received_crc, set_rxcrc, rx_abort_eval_respond,
}
use ext_nrf52_hw_models.Radio.Cca.{cca_abort_eval_respond}
use ext_nrf52_hw_models.Radio.Control.{
  nrf_radio_tasks_txen, nrf_radio_tasks_rxen, with_tifs_state, maybe_prepare_tifs,
}
use ext_nrf52_hw_models.Radio.Events.{nrf_radio_signal_disabled}
use ext_nrf52_hw_models.Radio.Signals.{
  nrf_radio_signal_ready, nrf_radio_signal_txready, nrf_radio_signal_rxready,
  nrf_radio_signal_address, nrf_radio_signal_framestart, nrf_radio_signal_payload,
  nrf_radio_signal_end, nrf_radio_signal_phyend, nrf_radio_signal_sync, nrf_radio_signal_crcok,
  nrf_radio_signal_crcerror, nrf_radio_signal_ccabusy, nrf_radio_signal_ccaidle,
  nrf_radio_signal_edend, nrf_radio_signal_rssiend, nrf_radio_signal_devmatch,
  nrf_radio_signal_devmiss, nrf_radio_signal_ccastopped, nrf_radio_signal_edstopped,
}

-- Is the address of the packet that of the registers at i, which are enabled?
abbrev pub device_matches : (rx_buf : ℕ → ℕ) → Radio → ℕ → Bool
device_matches rx_buf r i =
    r.dacnf / 2 ^ i % 2 == 1
    && (r.dacnf / 2 ^ (i + 8) % 2 == rx_buf 0 / 2 ^ 6 % 2
        && (word_at 4 2 rx_buf == r.dab i && word_at 2 6 rx_buf == bit_and (r.dap i) 0xffff))

-- The first that matches.
unfoldable pub find_device : (rx_buf : ℕ → ℕ) → Radio → Option ℕ
find_device rx_buf r =
    for_range 8 0
      (λ i found. elim found [
        | some j ↦ some j
        | none ↦ if device_matches rx_buf r i then some i else none
      ])
      none

module _ ⦃env : Env⦄ where
  unfoldable pub notify_device : Option ℕ → Soc → Soc
  notify_device none s = nrf_radio_signal_devmiss s
  notify_device (some i) s = nrf_radio_signal_devmatch (with_radio (record (s.radio) { dai = i }) s)

  unfoldable pub nrf_radio_device_address_match : Soc → Soc
  nrf_radio_device_address_match s = notify_device (find_device s.radio.fsm.rx_buf s.radio) s

  abbrev pub sample_rssi : Soc → Soc
  sample_rssi s =
      let rssi = env.p2g4_rssi_value_to_dbm s.radio.fsm.rx_status.rx_resp.rssi in
      let sample = nrfra_rssi_value_to_modem_format rssi in
      if s.radio.rssi_sampling_on
      then nrf_radio_signal_rssiend (with_radio (record (s.radio) { rssisample = sample }) s)
      else s

  -- The answer whether the packet is accepted. Where it is not there is no response.
  unfoldable pub answer_address : (accept_packet : Bool) → Soc → Soc
  answer_address accept_packet s =
      let asked = ask_rx s in
      let reply = env.p2g4_dev_rxv2_cont_after_addr accept_packet (new_abort s) asked in
      let closed = set_rxcrc (received_crc asked) asked in
      if accept_packet
      then handle_rx_response reply.ret (take_reply reply asked)
      else nrf_ccm_radio_received_packet (not closed.radio.fsm.rx_status.crc_ok) closed

  unfoldable pub rx_addr_received : Soc → Soc
  rx_addr_received s =
      let accept_packet = not s.radio.fsm.rx_status.packet_rejected in
      let sampled = sample_rssi s in
      let matched = with_radio (record (sampled.radio) { rxmatch = 0 }) sampled in
      answer_address accept_packet (
        if nonzero (bit_and matched.radio.dacnf 0xff)
        then nrf_radio_device_address_match matched
        else matched)

  abbrev pub with_sub_state : SubState → Soc → Soc
  with_sub_state sub s = with_fsm (record (s.radio.fsm) { radio_sub_state = sub }) s

  -- RAD_TX, by the sub-state.
  unfoldable pub tx_expiry : SubState → Soc → Soc
  tx_expiry tx_wait_for_address_end s = nrf_radio_signal_framestart (
      nrf_radio_signal_address (
        nrfra_set_timer_radio s.radio.fsm.tx_status.payload_end_time
          (with_sub_state tx_wait_for_payload_end s)))
  tx_expiry tx_wait_for_payload_end s = nrf_radio_signal_payload (
      nrfra_set_timer_radio s.radio.fsm.tx_status.crc_end_time
        (with_sub_state tx_wait_for_crc_end s))
  tx_expiry tx_wait_for_crc_end s = maybe_prepare_tifs true (
      nrf_radio_signal_phyend (
        nrf_radio_signal_end (
          nrf_radio_stop_bit_counter (
            nrfra_set_timer_radio env.time_never
              (enter rad_txidle (with_sub_state sub_state_invalid s))))))
  tx_expiry _ s = trace_error s

  -- The end of the address: the events, the answer, and then the wait for the payload's end.
  abbrev pub rx_address_end : Soc → Soc
  rx_address_end s =
      let quiet = nrf_hw_find_next_timer_to_trigger (nrfra_set_timer_radio env.time_never s) in
      let received =
        rx_addr_received
          (nrf_radio_signal_framestart (nrf_radio_signal_address (nrf_radio_signal_sync quiet))) in
      let waiting = with_sub_state rx_wait_for_payload_end received in
      nrfra_set_timer_radio waiting.radio.fsm.rx_status.payload_end_time waiting

  -- RAD_RX, by the sub-state.
  unfoldable pub rx_expiry : SubState → Soc → Soc
  rx_expiry rx_wait_for_address_end s = rx_address_end s
  rx_expiry rx_wait_for_payload_end s = nrf_radio_signal_payload (
      nrfra_set_timer_radio s.radio.fsm.rx_status.crc_end_time
        (with_sub_state rx_wait_for_crc_end s))
  rx_expiry rx_wait_for_crc_end s =
      let idle =
        nrfra_set_timer_radio env.time_never
          (enter rad_rxidle (with_sub_state sub_state_invalid s)) in
      let checked =
        if idle.radio.fsm.rx_status.crc_ok
        then nrf_radio_signal_crcok idle
        else nrf_radio_signal_crcerror idle in
      maybe_prepare_tifs false
        (nrf_radio_signal_end (nrf_radio_signal_phyend (nrf_radio_stop_bit_counter checked)))
  rx_expiry _ s = trace_error s

  unfoldable pub cca_ed_expiry : Soc → Soc
  cca_ed_expiry s =
      let idle = nrfra_set_timer_radio env.time_never (enter rad_rxidle s) in
      let st = idle.radio.fsm.cca_status in
      if st.cca_not_ed
      then if st.is_busy then nrf_radio_signal_ccabusy idle else nrf_radio_signal_ccaidle idle
      else nrf_radio_signal_edend idle

  unfoldable pub disable_expiry : Soc → Soc
  disable_expiry s =
      nrf_radio_signal_disabled
        (nrf_radio_stop_bit_counter (nrfra_set_timer_radio env.time_never (enter rad_disabled s)))

  abbrev pub with_from_hw_tifs : Bool → Soc → Soc
  with_from_hw_tifs from_hw_tifs s =
      with_fsm (record (s.radio.fsm) { from_hw_tifs = from_hw_tifs }) s

  -- RAD_DISABLED: the end of the inter-frame spacing.
  unfoldable pub tifs_expiry : TifsState → Soc → Soc
  tifs_expiry tifs_triggering_trx_en s =
      let t =
        with_from_hw_tifs true
          (nrfra_set_timer_radio env.time_never (with_tifs_state tifs_disable s)) in
      with_from_hw_tifs false
        (if t.radio.fsm.tifs_to_tx_not_rx then nrf_radio_tasks_txen t else nrf_radio_tasks_rxen t)
  tifs_expiry _ s = trace_error s

  unfoldable pub expiry : RadioState → Soc → Soc
  expiry rad_txru s =
      nrf_radio_signal_txready
        (nrf_radio_signal_ready (nrfra_set_timer_radio env.time_never (enter rad_txidle s)))
  expiry rad_rxru s =
      nrf_radio_signal_rxready
        (nrf_radio_signal_ready (nrfra_set_timer_radio env.time_never (enter rad_rxidle s)))
  expiry rad_txstarting s = start_tx (nrfra_set_timer_radio env.time_never s)
  expiry rad_tx s = tx_expiry s.radio.fsm.radio_sub_state s
  expiry rad_rx s = rx_expiry s.radio.fsm.radio_sub_state s
  expiry rad_cca_ed s = cca_ed_expiry s
  expiry rad_txdisable s = disable_expiry s
  expiry rad_rxdisable s = disable_expiry s
  expiry rad_disabled s = tifs_expiry s.radio.fsm.tifs_state s
  expiry rad_txidle s = trace_error s
  expiry rad_rxidle s = trace_error s

  unfoldable pub nrf_radio_timer_triggered : Soc → Soc
  nrf_radio_timer_triggered s = expiry s.radio.fsm.radio_state s

  unfoldable pub respond : AbortState → Soc → Soc
  respond tx_abort_reeval s = tx_abort_eval_respond s
  respond rx_abort_reeval s = rx_abort_eval_respond s
  respond cca_abort_reeval s = cca_abort_eval_respond s
  respond no_pending_abort_reeval s = trace_error s

  unfoldable pub nrf_radio_timer_abort_reeval_triggered : Soc → Soc
  nrf_radio_timer_abort_reeval_triggered s =
      let t = nrfra_set_timer_abort_reeval env.time_never s in
      respond t.radio.fsm.abort_fsm_state
        (with_fsm (record (t.radio.fsm) { abort_fsm_state = no_pending_abort_reeval }) t)

  unfoldable pub nrf_radio_tasks_ccastop : Soc → Soc
  nrf_radio_tasks_ccastop s =
      if in_state rad_cca_ed s && s.radio.fsm.cca_status.cca_not_ed
      then nrf_radio_signal_ccastopped
          (nrfra_set_timer_radio env.time_never (enter rad_rxidle (abort_if_needed s)))
      else s

  unfoldable pub nrf_radio_tasks_edstop : Soc → Soc
  nrf_radio_tasks_edstop s =
      if in_state rad_cca_ed s && not s.radio.fsm.cca_status.cca_not_ed
      then nrf_radio_signal_edstopped
          (nrfra_set_timer_radio env.time_never (enter rad_rxidle (abort_if_needed s)))
      else s

  -- The registers and variables after radio_reset, but for the bit counter.
  abbrev pub reset_radio : Radio → Radio
  reset_radio r =
      let f = r.fsm in
      record r {
        mode = 0;
        modecnf0 = 0x200;
        shorts = 0;
        pcnf0 = 0;
        pcnf1 = 0;
        crccnf = 0;
        packetptr = 0;
        inten = 0;
        intenset = 0;
        intenclr = 0;
        bcc = 0;
        state = 0;
        crcstatus = 0;
        rxcrc = 0;
        pdustat = 0;
        rxmatch = 0;
        dacnf = 0;
        dab = λ i. 0;
        dap = λ i. 0;
        dai = 0;
        rssisample = 0;
        edsample = 0;
        ccactrl = 0x52d0000;
        edcnt = 0;
        tifs = 0;
        prefix0 = 0;
        base0 = 0;
        sfd = 0xa7;
        frequency = 2;
        txpower = 0;
        crcinit = 0;
        power = 1;
        events = λ e. 0;
        tasks = λ t. 0;
        rssi_sampling_on = false;
        fsm = record f {
          radio_state = rad_disabled;
          radio_sub_state = sub_state_invalid;
          tifs_state = tifs_disable;
          tifs_to_tx_not_rx = false;
          timer_tifs = env.time_never;
        };
      }

  unfoldable pub radio_reset : Soc → Soc
  radio_reset s =
      nrf_radio_bitcounter_reset
        (record (with_radio (reset_radio s.radio) s) { timer_radio = env.time_never })

  unfoldable pub nrf_radio_init : Soc → Soc
  nrf_radio_init s =
      let t = radio_reset s in
      with_radio
        (record (t.radio) {
          quarter_bits_per_us = 4;
          fsm = record (t.radio.fsm) { radio_on = false };
        })
        t

  abbrev pub with_radio_on : Bool → Soc → Soc
  with_radio_on radio_on s = with_fsm (record (s.radio.fsm) { radio_on = radio_on }) s

  unfoldable pub nrf_radio_regw_sideeffects_power : Soc → Soc
  nrf_radio_regw_sideeffects_power s =
      if s.radio.power == 0
      then with_radio_on false s
      else if s.radio.fsm.radio_on
      then s
      else nrf_hw_find_next_timer_to_trigger (radio_reset (abort_if_needed (with_radio_on true s)))
