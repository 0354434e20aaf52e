-- ===== src/Radio/Receive.antt =====
-- src/HW_models/NRF_RADIO.c: the start of a reception, and the answers of the physical layer to it.
use ext_nrf52_hw_models.Common.{
  ℕ, ◌+◌, Bool, true, false, not, ◌||◌, Option, none, some, ltb, leb, ◌==◌, if◌then◌else◌, nonzero,
  bit_and, add64,
}
use ext_nrf52_hw_models.Soc.{
  Soc, Radio, PhyMessage, disconnected, rxv2_addressfound, rxv2_end, abortreeval, RxOutcome, rx_ok,
  rx_header_error, rx_nosync, RxReply, RxStatus, rad_rx, sub_state_invalid, rx_wait_for_address_end,
  rx_abort_reeval, pcnf0_s1incl,
}
use ext_nrf52_hw_models.Soc.Env.{Env}
use ext_nrf52_hw_models.Irq.{trace_error}
use ext_nrf52_hw_models.Memory.{store_byte, store_bytes}
use ext_nrf52_hw_models.Ccm.{nrf_ccm_radio_received_packet}
use ext_nrf52_hw_models.Radio.Timings.{nrfra_timings_get_rx_chain_delay}
use ext_nrf52_hw_models.Radio.Tasks.{with_radio}
use ext_nrf52_hw_models.Radio.Packet.{
  at_field, nrfra_check_packet_conf, nrfra_get_crc_length, nrfra_get_payload_length,
  nrfra_get_maxlen, nrfra_get_rx_crc_value,
}
use ext_nrf52_hw_models.Radio.Requests.{
  air_format, air_time, nrfra_prep_rx_request, hwll_dev_time_from_phy, nrfra_dbm_to_modem_lqiformat,
}
use ext_nrf52_hw_models.Radio.Abort.{
  with_fsm, enter, in_state, nrfra_set_timer_radio, nrfra_set_timer_abort_reeval, new_abort,
  update_abort_struct,
}

abbrev pub with_rx_status : RxStatus → Soc → Soc
with_rx_status st s = with_fsm (record (s.radio.fsm) { rx_status = st }) s

-- What a call of the physical layer leaves.
abbrev pub take_reply : RxReply → Soc → Soc
take_reply reply s =
    let f = s.radio.fsm in
    with_fsm
      (record f {
        rx_status = record (f.rx_status) { rx_resp = reply.resp };
        rx_buf = reply.packet;
      })
      s

abbrev pub is_ok : RxOutcome → Bool
is_ok rx_ok = true
is_ok _ = false

abbrev pub is_header_error : RxOutcome → Bool
is_header_error rx_header_error = true
is_header_error _ = false

module _ ⦃env : Env⦄ where
  -- RXCRC, or an error.
  unfoldable pub set_rxcrc : Option ℕ → Soc → Soc
  set_rxcrc none s = trace_error s
  set_rxcrc (some crc) s = with_radio (record (s.radio) { rxcrc = crc }) s

  -- nrfra_get_rx_crc_value on the received packet.
  abbrev pub received_crc : Soc → Option ℕ
  received_crc s =
      let f = s.radio.fsm in nrfra_get_rx_crc_value f.rx_buf f.rx_status.rx_resp.packet_size s.radio

  unfoldable pub rx_handle_end_response : (end_time : ℕ) → Soc → Soc
  rx_handle_end_response end_time s =
      let st = s.radio.fsm.rx_status in
      let timed =
        if is_header_error st.rx_resp.status
        then s
        else with_rx_status
            (record st { crc_end_time = add64 end_time (nrfra_timings_get_rx_chain_delay s.radio) })
            s in
      let checked = set_rxcrc (received_crc timed) timed in
      let passed =
        with_rx_status (record (checked.radio.fsm.rx_status) { crc_ok = true })
          (with_radio (record (checked.radio) { crcstatus = 1 }) checked) in
      let s' = if is_ok st.rx_resp.status then passed else timed in
      nrf_ccm_radio_received_packet (not s'.radio.fsm.rx_status.crc_ok) s'

  abbrev pub is_ble : Radio → Bool
  is_ble r = r.mode == env.mdk.radio_mode_ble_1mbit || r.mode == env.mdk.radio_mode_ble_2mbit

  abbrev pub is_154 : Radio → Bool
  is_154 r = r.mode == env.mdk.radio_mode_ieee802154_250kbit

  -- The packet but for its checksum goes to PACKETPTR; for 802.15.4 also the LQI.
  unfoldable pub store_packet : (length : ℕ) → Soc → Soc
  store_packet length s =
      let r = s.radio in
      let st = r.fsm.rx_status in
      let buf = r.fsm.rx_buf in
      let ptr = r.packetptr in
      let size = st.rx_resp.packet_size in
      let ble =
        store_bytes length (ptr + (2 + st.s1_offset)) (λ k. buf (2 + k))
          (store_bytes 2 ptr buf s) in
      let whole =
        store_bytes length (ptr + (1 + st.s1_offset)) (λ k. buf (1 + k))
          (store_bytes 1 ptr buf s) in
      let copied = if leb 3 size then whole else s in
      let lqi = nrfra_dbm_to_modem_lqiformat (env.p2g4_rssi_value_to_dbm st.rx_resp.rssi) in
      if is_ble r
      then if leb 5 size then ble else s
      else if is_154 r
      then store_byte (ptr + (1 + st.s1_offset + length)) lqi copied
      else s

  -- rx_status and PDUSTAT, where the payload's length is known.
  abbrev pub address_status : (address_time length : ℕ) → Soc → Soc
  address_status address_time length s =
      let r = s.radio in
      let st = r.fsm.rx_status in
      let too_long = ltb (nrfra_get_maxlen r) length in
      let capped = if too_long then nrfra_get_maxlen r else length in
      let delay = nrfra_timings_get_rx_chain_delay r in
      let on_air = air_time r.quarter_bits_per_us ((air_format r).tx_header_length + capped) in
      let payload_end =
        add64 delay (hwll_dev_time_from_phy (add64 st.rx_resp.rx_time_stamp on_air)) in
      let st' : RxStatus = record st {
        address_end_time = add64 address_time delay;
        packet_rejected = too_long;
        payload_end_time = payload_end;
        crc_end_time = add64 payload_end st.crc_duration;
      } in
      with_radio
        (record r {
          pdustat = if too_long then env.mdk.radio_pdustat_msk else 0;
          fsm = record (r.fsm) { rx_status = st' };
        })
        s

  unfoldable pub accept_address : (address_time : ℕ) → Option ℕ → Soc → Soc
  accept_address address_time none s = trace_error s
  accept_address address_time (some length) s =
      let capped =
        if ltb (nrfra_get_maxlen s.radio) length then nrfra_get_maxlen s.radio else length in
      store_packet capped (address_status address_time length s)

  unfoldable pub rx_handle_address_end_response : (address_time : ℕ) → Soc → Soc
  rx_handle_address_end_response address_time s =
      accept_address address_time (nrfra_get_payload_length s.radio.fsm.rx_buf s.radio) s

  -- An answer to what has been aborted is dropped.
  unfoldable pub handle_rx_response : PhyMessage → Soc → Soc
  handle_rx_response disconnected s = trace_error s
  handle_rx_response abortreeval s =
      let next = s.radio.fsm.next_recheck_time in
      let s' = env.tm_update_last_phy_sync_time next s in
      let flagged = with_fsm (record (s'.radio.fsm) { abort_fsm_state = rx_abort_reeval }) s' in
      let abs_time = env.tm_get_abs_time flagged in
      nrfra_set_timer_abort_reeval (if ltb abs_time next then next else abs_time) flagged
  handle_rx_response rxv2_addressfound s =
      let address_time = hwll_dev_time_from_phy s.radio.fsm.rx_status.rx_resp.rx_time_stamp in
      let seen =
        rx_handle_address_end_response address_time
          (env.tm_update_last_phy_sync_time address_time s) in
      let waiting =
        with_fsm (record (seen.radio.fsm) { radio_sub_state = rx_wait_for_address_end }) seen in
      if in_state rad_rx s
      then nrfra_set_timer_radio waiting.radio.fsm.rx_status.address_end_time waiting
      else s
  handle_rx_response rxv2_end s =
      let end_time = hwll_dev_time_from_phy s.radio.fsm.rx_status.rx_resp.end_time in
      if in_state rad_rx s
      then rx_handle_end_response end_time (env.tm_update_last_phy_sync_time end_time s)
      else s
  handle_rx_response _ s = s

  -- The abort structure of the request is filled again.
  abbrev pub ask_rx : Soc → Soc
  ask_rx s =
      let st = s.radio.fsm.rx_status in
      update_abort_struct
        (with_rx_status (record st { rx_req = record (st.rx_req) { abort = new_abort s } }) s)

  unfoldable pub rx_abort_eval_respond : Soc → Soc
  rx_abort_eval_respond s =
      let asked = ask_rx s in
      let reply = env.p2g4_dev_provide_new_rxv2_abort (new_abort s) asked in
      handle_rx_response reply.ret (take_reply reply asked)

  -- The registers and rx_status as the request is prepared.
  abbrev pub begin_rx : Soc → Soc
  begin_rx s =
      let t = enter rad_rx s in
      let r = t.radio in
      let st = r.fsm.rx_status in
      let has_s1 =
        nonzero (bit_and r.pcnf0 (at_field pcnf0_s1incl env.mdk.radio_pcnf0_s1incl_include)) in
      let q = (air_format r).quarter_bits_per_us in
      let st' : RxStatus = record st {
        s1_offset = if has_s1 then 1 else 0;
        crc_duration = air_time q (nrfra_get_crc_length r);
        crc_ok = false;
        rx_resp = record (st.rx_resp) { status = rx_nosync };
      } in
      with_radio
        (record r {
          crcstatus = 0;
          quarter_bits_per_us = q;
          fsm = record (r.fsm) { rx_status = st' };
        })
        t

  unfoldable pub receive : Soc → Soc
  receive s =
      let begun = begin_rx s in
      let request = record (nrfra_prep_rx_request begun) { abort = new_abort begun } in
      let asked =
        update_abort_struct
          (with_rx_status (record (begun.radio.fsm.rx_status) { rx_req = request }) begun) in
      let reply = env.p2g4_dev_req_rxv2 request asked in
      let taken = take_reply reply asked in
      let idle =
        with_fsm (record (taken.radio.fsm) { radio_sub_state = sub_state_invalid }) taken in
      handle_rx_response reply.ret (nrfra_set_timer_radio env.time_never idle)

  unfoldable pub start_rx : Soc → Soc
  start_rx s = if nrfra_check_packet_conf s.radio then receive s else trace_error s
