-- ===== src/RadioLaws/Shown/Phy.antt =====
-- STATE and radio_state of src/HW_models/NRF_RADIO.c: the transactions with the physical layer.
use ext_nrf52_hw_models.Common.{ℕ, ◌≡◌, refl, Bool, leb, if_intro, Option, none, some}
use ext_nrf52_hw_models.Soc.{
  Soc, PhyMessage, disconnected, tx_end, rxv2_addressfound, rxv2_end, cca_end, abortreeval,
  no_message, rad_rx, rad_tx, CcaRequest, rad_rxidle,
}
use ext_nrf52_hw_models.Soc.Env.{Env}
use ext_nrf52_hw_models.Irq.{trace_error}
use ext_nrf52_hw_models.Radio.{
  TxCopy, enter, in_state, state_value, handle_tx_response, tx_abort_eval_respond, request_tx,
  schedule_tx, transmit, start_tx, nrfra_check_packet_conf, set_rxcrc, is_header_error, is_ok,
  rx_handle_end_response, store_packet, is_ble, is_154, accept_address,
  rx_handle_address_end_response, handle_rx_response, rx_abort_eval_respond, receive, start_rx,
  ask_rx, set_busy, cca_handle_end_response, handle_cca_response, cca_abort_eval_respond,
  request_cca, start_cca_ed, begin_cca_ed,
}
use ext_nrf52_hw_models.RadioLaws.Shown.Ccm.{received_packet-IsShown}
use ext_nrf52_hw_models.RadioLaws.Shown.Base.{
  IsShown, Keeps, KeepsShown, set_timer-IsShown, set_abort-IsShown, update_abort-IsShown,
}

module _ ⦃env : Env⦄ where
  pub set_rxcrc-IsShown : (crc : Option ℕ) → Keeps IsShown (set_rxcrc crc)
  unfolding set_rxcrc
  set_rxcrc-IsShown none s h = h
  set_rxcrc-IsShown (some crc) s h = h

  set_busy-IsShown : (busy : Option Bool) → Keeps IsShown (set_busy busy)
  unfolding set_busy
  set_busy-IsShown none s h = h
  set_busy-IsShown (some busy) s h = h

  module _ (keeps : KeepsShown) where
    handle_tx-IsShown : (ret : PhyMessage) → Keeps IsShown (handle_tx_response ret)
    unfolding handle_tx_response
    handle_tx-IsShown disconnected s h = h
    handle_tx-IsShown tx_end s h = keeps.sync _ s h
    handle_tx-IsShown abortreeval s h = set_abort-IsShown _ _ (keeps.sync _ s h)
    handle_tx-IsShown rxv2_addressfound s h = h
    handle_tx-IsShown rxv2_end s h = h
    handle_tx-IsShown cca_end s h = h
    handle_tx-IsShown no_message s h = h

    pub tx_respond-IsShown : Keeps IsShown tx_abort_eval_respond
    unfolding tx_abort_eval_respond
    tx_respond-IsShown s h = handle_tx-IsShown _ _ (update_abort-IsShown _ h)

    request_tx-IsShown : (c : TxCopy) → Keeps IsShown (request_tx c)
    unfolding request_tx
    request_tx-IsShown c s h = handle_tx-IsShown _ _ (update_abort-IsShown _ h)

    transmit-IsShown : (c : Option TxCopy) → Keeps IsShown (transmit c)
    unfolding transmit schedule_tx
    transmit-IsShown none s h = h
    transmit-IsShown (some c) s h = set_timer-IsShown _ _ (request_tx-IsShown c s h)

    -- Whatever STATE was before.
    pub start_tx-IsShown : (s : Soc) → IsShown (start_tx s)
    unfolding start_tx
    start_tx-IsShown s =
        let t = enter rad_tx s in
        let h : IsShown t = refl in
        if_intro IsShown (nrfra_check_packet_conf t.radio) {y = trace_error t}
          (transmit-IsShown _ t h) h

    rx_end-IsShown : (time : ℕ) → Keeps IsShown (rx_handle_end_response time)
    unfolding rx_handle_end_response
    rx_end-IsShown time s h =
        let st = s.radio.fsm.rx_status in
        received_packet-IsShown keeps _ _ (
          if_intro IsShown (is_ok st.rx_resp.status)
            (set_rxcrc-IsShown _ _ (if_intro IsShown (is_header_error st.rx_resp.status) h h))
            (if_intro IsShown (is_header_error st.rx_resp.status) h h))

    store_packet-IsShown : (length : ℕ) → Keeps IsShown (store_packet length)
    unfolding store_packet
    store_packet-IsShown length s h =
        let size = s.radio.fsm.rx_status.rx_resp.packet_size in
        if_intro IsShown (is_ble s.radio) (if_intro IsShown (leb 5 size) h h)
          (if_intro IsShown (is_154 s.radio) (if_intro IsShown (leb 3 size) h h) h)

    accept-IsShown : (time : ℕ) (length : Option ℕ) → Keeps IsShown (accept_address time length)
    unfolding accept_address
    accept-IsShown time none s h = h
    accept-IsShown time (some length) s h = store_packet-IsShown _ _ h

    pub handle_rx-IsShown : (ret : PhyMessage) → Keeps IsShown (handle_rx_response ret)
    unfolding handle_rx_response rx_handle_address_end_response
    handle_rx-IsShown disconnected s h = h
    handle_rx-IsShown abortreeval s h = set_abort-IsShown _ _ (keeps.sync _ s h)
    handle_rx-IsShown rxv2_addressfound s h =
        if_intro IsShown (in_state rad_rx s)
          (set_timer-IsShown _ _ (accept-IsShown _ _ _ (keeps.sync _ s h))) h
    handle_rx-IsShown rxv2_end s h =
        if_intro IsShown (in_state rad_rx s) (rx_end-IsShown _ _ (keeps.sync _ s h)) h
    handle_rx-IsShown tx_end s h = h
    handle_rx-IsShown cca_end s h = h
    handle_rx-IsShown no_message s h = h

    pub ask_rx-IsShown : Keeps IsShown ask_rx
    ask_rx-IsShown s h = update_abort-IsShown _ h

    pub rx_respond-IsShown : Keeps IsShown rx_abort_eval_respond
    unfolding rx_abort_eval_respond
    rx_respond-IsShown s h = handle_rx-IsShown _ _ (ask_rx-IsShown s h)

    receive-IsShown : (s : Soc) → IsShown (receive s)
    unfolding receive
    receive-IsShown s = handle_rx-IsShown _ _ (set_timer-IsShown _ _ (update_abort-IsShown _ refl))

    pub start_rx-IsShown : Keeps IsShown start_rx
    unfolding start_rx
    start_rx-IsShown s h =
        if_intro IsShown (nrfra_check_packet_conf s.radio) {x = receive s} {y = trace_error s}
          (receive-IsShown s) h

    cca_end-IsShown : Keeps IsShown cca_handle_end_response
    unfolding cca_handle_end_response
    cca_end-IsShown s h =
        if_intro IsShown s.radio.fsm.cca_status.cca_not_ed (set_busy-IsShown _ s h) h

    pub handle_cca-IsShown : (ret : PhyMessage) → Keeps IsShown (handle_cca_response ret)
    unfolding handle_cca_response
    handle_cca-IsShown disconnected s h = h
    handle_cca-IsShown abortreeval s h = set_abort-IsShown _ _ (keeps.sync _ s h)
    handle_cca-IsShown cca_end s h =
        let synced = keeps.sync _ s h in
        cca_end-IsShown _ (if_intro IsShown _ (set_timer-IsShown _ _ synced) synced)
    handle_cca-IsShown rxv2_addressfound s h = h
    handle_cca-IsShown rxv2_end s h = h
    handle_cca-IsShown tx_end s h = h
    handle_cca-IsShown no_message s h = h

    pub cca_respond-IsShown : Keeps IsShown cca_abort_eval_respond
    unfolding cca_abort_eval_respond
    cca_respond-IsShown s h = handle_cca-IsShown _ _ (update_abort-IsShown _ h)

    request_cca-IsShown : (c : Option CcaRequest) → Keeps IsShown (request_cca c)
    unfolding request_cca
    request_cca-IsShown none s h = h
    request_cca-IsShown (some c) s h =
        handle_cca-IsShown _ _ (set_timer-IsShown _ _ (update_abort-IsShown _ h))

    pub start_cca_ed-IsShown :
        (cca_not_ed : Bool) (s : Soc)
        → s.radio.state ≡ state_value rad_rxidle
        → IsShown (start_cca_ed cca_not_ed s)
    unfolding start_cca_ed
    start_cca_ed-IsShown cca_not_ed s h = request_cca-IsShown _ (begin_cca_ed cca_not_ed s) h
