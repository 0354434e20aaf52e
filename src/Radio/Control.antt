-- ===== src/Radio/Control.antt =====
-- src/HW_models/NRF_RADIO.c: the tasks that raise no event, and the small state machine of the automatic
-- inter-frame spacing.
use ext_nrf52_hw_models.Common.{ℕ, Bool, true, false, ◌||◌, if◌then◌else◌, add64, sub64}
use ext_nrf52_hw_models.Soc.{
  Soc, Radio, rad_disabled, rad_txidle, rad_rxidle, rad_txru, rad_rxru, rad_txstarting, rad_tx,
  rad_rx, rad_cca_ed, TifsState, tifs_disable, tifs_waiting_for_disable, tifs_triggering_trx_en,
  disabled_txen,
}
use ext_nrf52_hw_models.Soc.Env.{Env}
use ext_nrf52_hw_models.Radio.Timings.{
  has_radio_short, nrfra_is_hw_tifs_enabled, nrfra_timings_get_rampup_time,
  nrfra_timings_get_tx_chain_delay, nrfra_timings_get_rx_chain_delay,
}
use ext_nrf52_hw_models.Radio.Tasks.{with_radio, nrf_radio_stop_bit_counter}
use ext_nrf52_hw_models.Radio.Abort.{
  with_fsm, enter, in_state, state_value, nrfra_set_timer_radio, abort_if_needed,
}
use ext_nrf52_hw_models.Radio.Receive.{start_rx}
use ext_nrf52_hw_models.Radio.Cca.{start_cca_ed}

abbrev pub is_waiting_for_disable : TifsState → Bool
is_waiting_for_disable tifs_waiting_for_disable = true
is_waiting_for_disable _ = false

abbrev pub with_tifs_state : TifsState → Soc → Soc
with_tifs_state t s = with_fsm (record (s.radio.fsm) { tifs_state = t }) s

-- The states from which the radio ramps up.
abbrev pub may_ramp_up : Soc → Bool
may_ramp_up s = in_state rad_disabled s || (in_state rad_txidle s || in_state rad_rxidle s)

module _ ⦃env : Env⦄ where
  unfoldable pub nrf_radio_tasks_txen : Soc → Soc
  nrf_radio_tasks_txen s =
      let t = enter rad_txru s in
      let time = nrfra_timings_get_rampup_time true t.radio.fsm.from_hw_tifs t.radio in
      if may_ramp_up s then nrfra_set_timer_radio (add64 t.now time) t else s

  unfoldable pub nrf_radio_tasks_rxen : Soc → Soc
  nrf_radio_tasks_rxen s =
      let t = enter rad_rxru (with_tifs_state tifs_disable s) in
      let time = nrfra_timings_get_rampup_time false t.radio.fsm.from_hw_tifs t.radio in
      if may_ramp_up s then nrfra_set_timer_radio (add64 t.now time) t else s

  -- STATE shows TX while the start is under way.
  abbrev pub begin_tx : Soc → Soc
  begin_tx s =
      with_radio
        (record (s.radio) {
          state = state_value rad_tx;
          fsm = record (s.radio.fsm) { radio_state = rad_txstarting };
        })
        s

  unfoldable pub nrf_radio_tasks_start : Soc → Soc
  nrf_radio_tasks_start s =
      if in_state rad_txidle s
      then nrfra_set_timer_radio (add64 (env.tm_get_abs_time s) nrfra_timings_get_tx_chain_delay)
          (begin_tx s)
      else if in_state rad_rxidle s
      then start_rx s
      else s

  unfoldable pub nrf_radio_tasks_ccastart : Soc → Soc
  nrf_radio_tasks_ccastart s = if in_state rad_rxidle s then start_cca_ed true s else s

  unfoldable pub nrf_radio_tasks_edstart : Soc → Soc
  nrf_radio_tasks_edstart s = if in_state rad_rxidle s then start_cca_ed false s else s

  -- What goes on is stopped: a transmission, a reception or a CCA or ED procedure.
  abbrev pub stop_activity : Soc → Soc
  stop_activity s =
      if in_state rad_tx s
      then enter rad_txidle (abort_if_needed s)
      else if in_state rad_txstarting s
      then enter rad_txidle s
      else if in_state rad_rx s || in_state rad_cca_ed s
      then enter rad_rxidle (abort_if_needed s)
      else s

  abbrev pub is_active : Soc → Bool
  is_active s =
      in_state rad_tx s
      || (in_state rad_txstarting s || (in_state rad_rx s || in_state rad_cca_ed s))

  unfoldable pub nrf_radio_tasks_stop : Soc → Soc
  nrf_radio_tasks_stop s =
      let t = nrf_radio_stop_bit_counter s in
      if is_active t then nrfra_set_timer_radio env.time_never (stop_activity t) else t

  -- A fake task, that waits for the inter-frame spacing.
  unfoldable pub nrf_radio_fake_task_trxen_tifs : Soc → Soc
  nrf_radio_fake_task_trxen_tifs s =
      if is_waiting_for_disable s.radio.fsm.tifs_state
      then nrfra_set_timer_radio s.radio.fsm.timer_tifs (with_tifs_state tifs_triggering_trx_en s)
      else s

  -- From the end of a transmission, or of a reception, to the ramp-up.
  abbrev pub tifs_delta : (tx_not_rx : Bool) → Radio → ℕ
  tifs_delta tx_not_rx r =
      let after_tx =
        sub64
          (sub64 (add64 r.tifs nrfra_timings_get_tx_chain_delay)
            (nrfra_timings_get_rampup_time false true r))
          3 in
      let after_rx =
        sub64 (sub64 r.tifs (nrfra_timings_get_rx_chain_delay r))
          nrfra_timings_get_tx_chain_delay in
      if tx_not_rx
      then after_tx
      else add64 (sub64 after_rx (nrfra_timings_get_rampup_time true true r)) 1

  unfoldable pub maybe_prepare_tifs : (tx_not_rx : Bool) → Soc → Soc
  maybe_prepare_tifs tx_not_rx s =
      let r = s.radio in
      if nrfra_is_hw_tifs_enabled r
      then with_fsm
          (record (r.fsm) {
            tifs_to_tx_not_rx = has_radio_short disabled_txen r;
            timer_tifs = add64 s.now (tifs_delta tx_not_rx r);
            tifs_state = tifs_waiting_for_disable;
          })
          s
      else with_tifs_state tifs_disable s
