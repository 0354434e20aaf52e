-- ===== src/Radio/Cca.antt =====
-- src/HW_models/NRF_RADIO.c: the clear channel assessment and the energy detection.
use ext_nrf52_hw_models.Common.{
  ℕ, Bool, false, ◌&&◌, ◌||◌, Option, none, some, ◌==◌, if◌then◌else◌, add64,
}
use ext_nrf52_hw_models.Soc.{
  Soc, PhyMessage, disconnected, cca_end, abortreeval, CcaReply, CcaRequest, CcaResponse, CcaStatus,
  rad_cca_ed, cca_abort_reeval,
}
use ext_nrf52_hw_models.Soc.Env.{Env}
use ext_nrf52_hw_models.Irq.{trace_error}
use ext_nrf52_hw_models.Radio.Tasks.{with_radio}
use ext_nrf52_hw_models.Radio.Requests.{
  nrfra_prep_cca_request, hwll_dev_time_from_phy, nrfra_dbm_to_modem_lqiformat, cca_mode,
}
use ext_nrf52_hw_models.Radio.Abort.{
  with_fsm, in_state, nrfra_set_timer_radio, nrfra_set_timer_abort_reeval, new_abort,
  update_abort_struct,
}

abbrev pub with_cca_status : CcaStatus → Soc → Soc
with_cca_status st s = with_fsm (record (s.radio.fsm) { cca_status = st }) s

module _ ⦃env : Env⦄ where
  -- Is the channel busy, by the mode? none is an error.
  unfoldable pub busy_by_mode : (mode : ℕ) → CcaResponse → Option Bool
  busy_by_mode mode resp =
      if mode == env.mdk.radio_ccactrl_ccamode_edmode
        || mode == env.mdk.radio_ccactrl_ccamode_edmodetest1
      then some resp.rssi_overthreshold
      else if mode == env.mdk.radio_ccactrl_ccamode_carriermode
      then some resp.mod_found
      else if mode == env.mdk.radio_ccactrl_ccamode_carrierandedmode
      then some (resp.mod_found && resp.rssi_overthreshold)
      else if mode == env.mdk.radio_ccactrl_ccamode_carrieroredmode
      then some (resp.mod_found || resp.rssi_overthreshold)
      else none

  unfoldable pub set_busy : Option Bool → Soc → Soc
  set_busy none s = trace_error s
  set_busy (some busy) s = with_cca_status (record (s.radio.fsm.cca_status) { is_busy = busy }) s

  unfoldable pub cca_handle_end_response : Soc → Soc
  cca_handle_end_response s =
      let st = s.radio.fsm.cca_status in
      let lqi = nrfra_dbm_to_modem_lqiformat (env.p2g4_rssi_value_to_dbm st.cca_resp.rssi_max) in
      if st.cca_not_ed
      then set_busy (busy_by_mode (cca_mode s.radio) st.cca_resp) s
      else with_radio (record (s.radio) { edsample = lqi }) s

  unfoldable pub handle_cca_response : PhyMessage → Soc → Soc
  handle_cca_response disconnected s = trace_error s
  handle_cca_response cca_end s =
      let end_time = hwll_dev_time_from_phy s.radio.fsm.cca_status.cca_resp.end_time in
      let s' = env.tm_update_last_phy_sync_time end_time s in
      let ended =
        with_cca_status (record (s'.radio.fsm.cca_status) { cca_end_time = end_time }) s' in
      cca_handle_end_response
        (if in_state rad_cca_ed ended then nrfra_set_timer_radio end_time ended else ended)
  handle_cca_response abortreeval s =
      let next = s.radio.fsm.next_recheck_time in
      let s' = env.tm_update_last_phy_sync_time next s in
      nrfra_set_timer_abort_reeval next
        (with_fsm (record (s'.radio.fsm) { abort_fsm_state = cca_abort_reeval }) s')
  handle_cca_response _ s = s

  abbrev pub take_cca_reply : CcaReply → Soc → Soc
  take_cca_reply reply s =
      with_cca_status (record (s.radio.fsm.cca_status) { cca_resp = reply.resp }) s

  unfoldable pub cca_abort_eval_respond : Soc → Soc
  cca_abort_eval_respond s =
      let st = s.radio.fsm.cca_status in
      let asked =
        update_abort_struct (
          with_cca_status (record st { cca_req = record (st.cca_req) { abort = new_abort s } })
            s) in
      let reply = env.p2g4_dev_provide_new_cca_abort (new_abort s) asked in
      handle_cca_response reply.ret (take_cca_reply reply asked)

  -- radio_state, without STATE.
  abbrev pub begin_cca_ed : (cca_not_ed : Bool) → Soc → Soc
  begin_cca_ed cca_not_ed s =
      let f = s.radio.fsm in
      with_fsm
        (record f {
          radio_state = rad_cca_ed;
          cca_status = record (f.cca_status) { cca_not_ed = cca_not_ed; is_busy = false };
        })
        s

  unfoldable pub request_cca : Option CcaRequest → Soc → Soc
  request_cca none s = trace_error s
  request_cca (some prepared) s =
      let request = record prepared { abort = new_abort s } in
      let asked =
        update_abort_struct
          (with_cca_status (record (s.radio.fsm.cca_status) { cca_req = request }) s) in
      let expected = add64 (env.tm_get_abs_time asked) request.scan_duration in
      let timed =
        nrfra_set_timer_radio expected (
          with_cca_status (record (asked.radio.fsm.cca_status) { cca_end_time = expected })
            asked) in
      let reply = env.p2g4_dev_req_cca request timed in
      handle_cca_response reply.ret (take_cca_reply reply timed)

  unfoldable pub start_cca_ed : (cca_not_ed : Bool) → Soc → Soc
  start_cca_ed cca_not_ed s =
      let begun = begin_cca_ed cca_not_ed s in
      request_cca (nrfra_prep_cca_request cca_not_ed begun) begun
