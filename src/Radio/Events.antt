-- ===== src/Radio/Events.antt =====
-- src/HW_models/NRF_RADIO_signals.c: what the events have in common, and DISABLED; and the task DISABLE of
-- src/HW_models/NRF_RADIO.c, which raises it. An event is its number in NRF_PPI.h.
use ext_nrf52_hw_models.Common.{
  ℕ, Bool, true, false, ◌||◌, List, [], ◌∷◌, if◌then◌else◌, nonzero, bit_and, update, add64,
}
use ext_nrf52_hw_models.Soc.{
  Soc, RadioShort, disabled_rssistop, disabled_rxen, disabled_txen, rad_disabled, rad_txru,
  rad_txidle, rad_txdisable, rad_rxru, rad_rxidle, rad_rxdisable, TifsState, tifs_disable,
}
use ext_nrf52_hw_models.Soc.Env.{Env}
use ext_nrf52_hw_models.Irq.{hw_irq_ctrl_set_irq}
use ext_nrf52_hw_models.Radio.Timings.{
  has_radio_short, nrfra_is_hw_tifs_enabled, nrfra_timings_get_tx_rampdown_time,
  nrfra_timings_get_rx_rampdown_time,
}
use ext_nrf52_hw_models.Radio.Tasks.{
  with_radio, nrf_radio_tasks_rssistop, nrf_radio_stop_bit_counter,
}
use ext_nrf52_hw_models.Radio.Abort.{with_fsm, enter, in_state, nrfra_set_timer_radio}
use ext_nrf52_hw_models.Radio.Control.{
  nrf_radio_tasks_txen, nrf_radio_tasks_rxen, nrf_radio_fake_task_trxen_tifs, stop_activity,
  with_tifs_state,
}

abbrev pub is_tifs_disabled : TifsState → Bool
is_tifs_disabled tifs_disable = true
is_tifs_disabled _ = false

module _ ⦃env : Env⦄ where
  -- EVENTS_x = 1, and nrf_ppi_event.
  unfoldable pub raise_radio_event : ℕ → Soc → Soc
  raise_radio_event event s =
      env.nrf_ppi_event event
        (with_radio (record (s.radio) { events = update s.radio.events event 1 }) s)

  -- The tasks of the shorts that are set, one after the other.
  unfoldable pub run_shorts : List (RadioShort × (Soc → Soc)) → Soc → Soc
  run_shorts [] s = s
  run_shorts ((short, task) ∷ rest) s =
      run_shorts rest (if has_radio_short short s.radio then task s else s)

  -- The interrupt, where it is enabled for the event.
  unfoldable pub raise_radio_irq : ℕ → Soc → Soc
  raise_radio_irq event s =
      if nonzero (bit_and s.radio.inten (env.mdk.radio_intenset_msk event))
      then hw_irq_ctrl_set_irq env.mdk.radio_irqn s
      else s

  -- What all events but DISABLED have in common.
  unfoldable pub signal : ℕ → List (RadioShort × (Soc → Soc)) → Soc → Soc
  signal event shorts s = raise_radio_irq event (run_shorts shorts (raise_radio_event event s))

  unfoldable pub nrf_radio_signal_disabled : Soc → Soc
  nrf_radio_signal_disabled s =
      let s1 = raise_radio_event 10 s in
      let s2 =
        if nrfra_is_hw_tifs_enabled s1.radio
        then nrf_radio_fake_task_trxen_tifs s1
        else run_shorts
            ((disabled_txen, nrf_radio_tasks_txen) ∷ (disabled_rxen, nrf_radio_tasks_rxen) ∷ [])
            s1 in
      raise_radio_irq 10 (run_shorts ((disabled_rssistop, nrf_radio_tasks_rssistop) ∷ []) s2)

  -- A pending automatic ramp-up is given up.
  abbrev pub give_up_tifs : Soc → Soc
  give_up_tifs s =
      let off = nrfra_set_timer_radio env.time_never (with_tifs_state tifs_disable s) in
      if is_tifs_disabled s.radio.fsm.tifs_state
      then s
      else with_fsm (record (off.radio.fsm) { timer_tifs = env.time_never }) off

  unfoldable pub ramp_down : Soc → Soc
  ramp_down s =
      let r = s.radio in
      let from_tx = with_tifs_state tifs_disable (enter rad_txdisable s) in
      let from_rx = with_tifs_state tifs_disable (enter rad_rxdisable s) in
      if in_state rad_txru s || in_state rad_txidle s
      then nrfra_set_timer_radio (add64 s.now (nrfra_timings_get_tx_rampdown_time r)) from_tx
      else if in_state rad_rxru s || in_state rad_rxidle s
      then nrfra_set_timer_radio (add64 s.now nrfra_timings_get_rx_rampdown_time) from_rx
      else if in_state rad_disabled s
      then nrf_radio_signal_disabled (nrf_radio_stop_bit_counter s)
      else s

  unfoldable pub nrf_radio_tasks_disable : Soc → Soc
  nrf_radio_tasks_disable s =
      ramp_down (give_up_tifs (stop_activity (nrf_radio_stop_bit_counter s)))
