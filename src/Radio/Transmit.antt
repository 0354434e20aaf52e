-- ===== src/Radio/Transmit.antt =====
-- src/HW_models/NRF_RADIO.c: the start of a transmission, and the answers of the physical layer to it.
use ext_nrf52_hw_models.Common.{
  ℕ, ◌+◌, ◌-◌, ◌||◌, Option, none, some, ltb, ◌==◌, if◌then◌else◌, bit_and, add64, sub64,
}
use ext_nrf52_hw_models.Crc.{append_crc_ble, append_crc_154}
use ext_nrf52_hw_models.Soc.{
  Soc, Radio, PhyMessage, disconnected, tx_end, abortreeval, TxStatus, rad_tx,
  tx_wait_for_address_end, tx_abort_reeval, crcinit_crcinit,
}
use ext_nrf52_hw_models.Soc.Env.{Env}
use ext_nrf52_hw_models.Irq.{trace_error}
use ext_nrf52_hw_models.Radio.Timings.{nrfra_timings_get_tx_chain_delay}
use ext_nrf52_hw_models.Radio.Tasks.{with_radio}
use ext_nrf52_hw_models.Radio.Packet.{
  TxCopy, nrfra_check_packet_conf, nrfra_get_crc_length, nrfra_tx_copy_payload,
}
use ext_nrf52_hw_models.Radio.Requests.{
  air_format, air_time, nrfra_prep_tx_request, hwll_dev_time_from_phy,
}
use ext_nrf52_hw_models.Radio.Abort.{
  with_fsm, enter, nrfra_set_timer_radio, nrfra_set_timer_abort_reeval, new_abort,
  update_abort_struct,
}

module _ ⦃env : Env⦄ where
  unfoldable pub handle_tx_response : PhyMessage → Soc → Soc
  handle_tx_response disconnected s = trace_error s
  handle_tx_response tx_end s =
      env.tm_update_last_phy_sync_time
        (hwll_dev_time_from_phy s.radio.fsm.tx_status.tx_resp_end_time) s
  handle_tx_response abortreeval s =
      let s' = env.tm_update_last_phy_sync_time s.radio.fsm.next_recheck_time s in
      nrfra_set_timer_abort_reeval s.radio.fsm.next_recheck_time
        (with_fsm (record (s'.radio.fsm) { abort_fsm_state = tx_abort_reeval }) s')
  handle_tx_response _ s = s

  unfoldable pub tx_abort_eval_respond : Soc → Soc
  tx_abort_eval_respond s =
      let f = s.radio.fsm in
      let abort = new_abort s in
      let st = f.tx_status in
      let asked = update_abort_struct (
        with_fsm
          (record f { tx_status = record st { tx_req = record (st.tx_req) { abort = abort } } })
          s) in
      let reply = env.p2g4_dev_provide_new_tx_abort abort asked in
      let g = asked.radio.fsm in
      handle_tx_response reply.ret (
        with_fsm
          (record g { tx_status = record (g.tx_status) { tx_resp_end_time = reply.end_time } })
          asked)

  -- The packet with its checksum; 802.15.4 does not check the length.
  abbrev pub with_crc : (payload_len : ℕ) → (tx_buf : ℕ → ℕ) → Radio → ℕ → ℕ
  with_crc payload_len tx_buf r k =
      let header_len = (air_format r).tx_header_length in
      let crc_init = bit_and r.crcinit (env.mdk.radio_field_msk crcinit_crcinit) in
      if r.mode == env.mdk.radio_mode_ble_1mbit || r.mode == env.mdk.radio_mode_ble_2mbit
      then append_crc_ble tx_buf (header_len + payload_len) crc_init k
      else if r.mode == env.mdk.radio_mode_ieee802154_250kbit
      then if ltb k header_len
        then tx_buf k
        else append_crc_154 (λ j. tx_buf (header_len + j)) payload_len crc_init (k - header_len)
      else tx_buf k

  -- From the preamble to the checksum.
  abbrev pub packet_duration : (payload_len : ℕ) → Radio → ℕ
  packet_duration payload_len r =
      let f = air_format r in
      air_time f.quarter_bits_per_us (
        f.preamble_length
        + f.address_length
        + f.tx_header_length
        + payload_len
        + nrfra_get_crc_length r)

  -- The request, and what the answer to it leaves.
  unfoldable pub request_tx : TxCopy → Soc → Soc
  request_tx c s =
      let r = s.radio in
      let f = air_format r in
      let tx_buf = with_crc c.payload_len c.tx_buf r in
      let copied =
        with_radio
          (record r {
            pdustat = c.pdustat;
            quarter_bits_per_us = f.quarter_bits_per_us;
            fsm = record (r.fsm) { tx_buf = tx_buf };
          })
          s in
      let packet_size = f.tx_header_length + c.payload_len + nrfra_get_crc_length r in
      let request =
        record (nrfra_prep_tx_request packet_size (packet_duration c.payload_len r) copied) {
          abort = new_abort copied;
        } in
      let g = copied.radio.fsm in
      let asked =
        update_abort_struct
          (with_fsm (record g { tx_status = record (g.tx_status) { tx_req = request } }) copied) in
      let reply = env.p2g4_dev_req_txv2 request tx_buf asked in
      let h = asked.radio.fsm in
      handle_tx_response reply.ret (
        with_fsm
          (record h { tx_status = record (h.tx_status) { tx_resp_end_time = reply.end_time } })
          asked)

  -- The times of the ends on air, and the wait for the first.
  unfoldable pub schedule_tx : (payload_len : ℕ) → (r : Radio) → Soc → Soc
  schedule_tx payload_len r s =
      let f = air_format r in
      let q = f.quarter_bits_per_us in
      let address_end =
        sub64 (add64 s.now (air_time q (f.preamble_length + f.address_length)))
          nrfra_timings_get_tx_chain_delay in
      let payload_end = add64 address_end (air_time q (f.tx_header_length + payload_len)) in
      let crc_end = add64 payload_end (air_time q (nrfra_get_crc_length r)) in
      let g = s.radio.fsm in
      let times : TxStatus = record (g.tx_status) {
        address_end_time = address_end;
        payload_end_time = payload_end;
        crc_end_time = crc_end;
      } in
      nrfra_set_timer_radio address_end
        (with_fsm (record g { tx_status = times; radio_sub_state = tx_wait_for_address_end }) s)

  unfoldable pub transmit : Option TxCopy → Soc → Soc
  transmit none s = trace_error s
  transmit (some c) s = schedule_tx c.payload_len s.radio (request_tx c s)

  unfoldable pub start_tx : Soc → Soc
  start_tx s =
      let t = enter rad_tx s in
      let r = t.radio in
      if nrfra_check_packet_conf r
      then transmit (nrfra_tx_copy_payload (λ k. t.ram (r.packetptr + k)) r.fsm.tx_buf r) t
      else trace_error t
