-- ===== src/RadioLaws/Shown/Events.antt =====
-- STATE and radio_state of src/HW_models/NRF_RADIO.c: the task DISABLE, and the events with their shorts of
-- NRF_RADIO_signals.c.
use ext_nrf52_hw_models.Common.{refl, ◌||◌, List, [], ◌∷◌, if_intro}
use ext_nrf52_hw_models.Soc.{
  Soc, RadioShort, disabled_rssistop, disabled_rxen, disabled_txen, rad_disabled, rad_txru,
  rad_txidle, rad_txdisable, rad_rxru, rad_rxidle, rad_rxdisable, tifs_disable,
}
use ext_nrf52_hw_models.Soc.Env.{Env}
use ext_nrf52_hw_models.Radio.{
  enter, in_state, nrfra_set_timer_radio, with_tifs_state, nrfra_is_hw_tifs_enabled,
  nrf_radio_fake_task_trxen_tifs, run_shorts, nrf_radio_tasks_txen, nrf_radio_tasks_rxen,
  nrf_radio_tasks_rssistop, is_tifs_disabled, raise_radio_event, nrf_radio_signal_disabled,
  give_up_tifs, ramp_down, nrf_radio_tasks_disable, nrf_radio_signal_ready,
  nrf_radio_signal_address, nrf_radio_signal_payload, nrf_radio_signal_end,
  nrf_radio_signal_devmatch, nrf_radio_signal_devmiss, nrf_radio_signal_rssiend,
  nrf_radio_signal_crcok, nrf_radio_signal_crcerror, nrf_radio_signal_framestart,
  nrf_radio_signal_edend, nrf_radio_signal_edstopped, nrf_radio_signal_ccaidle,
  nrf_radio_signal_ccabusy, nrf_radio_signal_ccastopped, nrf_radio_signal_txready,
  nrf_radio_signal_rxready, nrf_radio_signal_sync, nrf_radio_signal_phyend,
  nrf_radio_signal_bcmatch, nrf_radio_bitcounter_timer_triggered,
}
use ext_nrf52_hw_models.RadioLaws.Shown.Base.{
  IsShown, Keeps, KeepsShown, set_timer-IsShown, stop_bit_counter-IsShown, run_shorts-IsShown,
  raise_irq-IsShown, raise_event-IsShown, signal-IsShown, bcstart-IsShown, rssistart-IsShown,
  rssistop-IsShown, find_next-IsShown,
}
use ext_nrf52_hw_models.RadioLaws.Shown.Tasks.{
  txen-IsShown, rxen-IsShown, stop_activity-IsShown, stop-IsShown, fake_task-IsShown,
  ccastart-IsShown, edstart-IsShown, start-IsShown,
}

module _ ⦃env : Env⦄ (keeps : KeepsShown) where
  pub disabled-IsShown : Keeps IsShown nrf_radio_signal_disabled
  unfolding nrf_radio_signal_disabled
  disabled-IsShown s h =
      let t = raise_radio_event 10 s in
      let raised : IsShown t = raise_event-IsShown keeps 10 s h in
      let ramp_ups : List (RadioShort × (Soc → Soc)) =
        (disabled_txen, nrf_radio_tasks_txen) ∷ (disabled_rxen, nrf_radio_tasks_rxen) ∷ [] in
      raise_irq-IsShown 10 _ (
        run_shorts-IsShown ((disabled_rssistop, nrf_radio_tasks_rssistop) ∷ [])
          (rssistop-IsShown, tt) _
          (if_intro IsShown (nrfra_is_hw_tifs_enabled t.radio)
            {x = nrf_radio_fake_task_trxen_tifs t} {y = run_shorts ramp_ups t}
            (fake_task-IsShown t raised)
            (run_shorts-IsShown ramp_ups (txen-IsShown, (rxen-IsShown, tt)) t raised)))

  give_up_tifs-IsShown : Keeps IsShown give_up_tifs
  give_up_tifs-IsShown s h =
      if_intro IsShown (is_tifs_disabled s.radio.fsm.tifs_state) {x = s} h
        (set_timer-IsShown env.time_never (with_tifs_state tifs_disable s) h)

  ramp_down-IsShown : Keeps IsShown ramp_down
  unfolding ramp_down
  ramp_down-IsShown s h =
      let from_tx = with_tifs_state tifs_disable (enter rad_txdisable s) in
      let from_rx = with_tifs_state tifs_disable (enter rad_rxdisable s) in
      if_intro IsShown (in_state rad_txru s || in_state rad_txidle s)
        {x = nrfra_set_timer_radio _ from_tx} (set_timer-IsShown _ from_tx refl)
        (if_intro IsShown (in_state rad_rxru s || in_state rad_rxidle s)
          {x = nrfra_set_timer_radio _ from_rx} (set_timer-IsShown _ from_rx refl)
          (if_intro IsShown (in_state rad_disabled s) {x = nrf_radio_signal_disabled _} {y = s}
            (disabled-IsShown _ (stop_bit_counter-IsShown s h)) h))

  pub disable-IsShown : Keeps IsShown nrf_radio_tasks_disable
  unfolding nrf_radio_tasks_disable
  disable-IsShown s h =
      ramp_down-IsShown _
        (give_up_tifs-IsShown _ (stop_activity-IsShown _ (stop_bit_counter-IsShown s h)))

  pub ready-IsShown : Keeps IsShown nrf_radio_signal_ready
  unfolding nrf_radio_signal_ready
  ready-IsShown = signal-IsShown keeps 6 _ (start-IsShown keeps, (edstart-IsShown keeps, tt))

  pub address-IsShown : Keeps IsShown nrf_radio_signal_address
  unfolding nrf_radio_signal_address
  address-IsShown = signal-IsShown keeps 7 _ (rssistart-IsShown, (bcstart-IsShown, tt))

  pub payload-IsShown : Keeps IsShown nrf_radio_signal_payload
  unfolding nrf_radio_signal_payload
  payload-IsShown = signal-IsShown keeps 8 [] tt

  pub end-IsShown : Keeps IsShown nrf_radio_signal_end
  unfolding nrf_radio_signal_end
  end-IsShown = signal-IsShown keeps 9 _ (disable-IsShown, (start-IsShown keeps, tt))

  pub devmatch-IsShown : Keeps IsShown nrf_radio_signal_devmatch
  unfolding nrf_radio_signal_devmatch
  devmatch-IsShown = signal-IsShown keeps 11 [] tt

  pub devmiss-IsShown : Keeps IsShown nrf_radio_signal_devmiss
  unfolding nrf_radio_signal_devmiss
  devmiss-IsShown = signal-IsShown keeps 12 [] tt

  pub rssiend-IsShown : Keeps IsShown nrf_radio_signal_rssiend
  unfolding nrf_radio_signal_rssiend
  rssiend-IsShown = signal-IsShown keeps 13 [] tt

  pub crcok-IsShown : Keeps IsShown nrf_radio_signal_crcok
  unfolding nrf_radio_signal_crcok
  crcok-IsShown = signal-IsShown keeps 15 [] tt

  pub crcerror-IsShown : Keeps IsShown nrf_radio_signal_crcerror
  unfolding nrf_radio_signal_crcerror
  crcerror-IsShown = signal-IsShown keeps 16 [] tt

  pub framestart-IsShown : Keeps IsShown nrf_radio_signal_framestart
  unfolding nrf_radio_signal_framestart
  framestart-IsShown = signal-IsShown keeps 17 _ (bcstart-IsShown, tt)

  pub edend-IsShown : Keeps IsShown nrf_radio_signal_edend
  unfolding nrf_radio_signal_edend
  edend-IsShown = signal-IsShown keeps 18 _ (disable-IsShown, tt)

  pub edstopped-IsShown : Keeps IsShown nrf_radio_signal_edstopped
  unfolding nrf_radio_signal_edstopped
  edstopped-IsShown = signal-IsShown keeps 19 [] tt

  pub ccaidle-IsShown : Keeps IsShown nrf_radio_signal_ccaidle
  unfolding nrf_radio_signal_ccaidle
  ccaidle-IsShown = signal-IsShown keeps 20 _ (stop-IsShown, (txen-IsShown, tt))

  pub ccabusy-IsShown : Keeps IsShown nrf_radio_signal_ccabusy
  unfolding nrf_radio_signal_ccabusy
  ccabusy-IsShown = signal-IsShown keeps 21 _ (disable-IsShown, tt)

  pub ccastopped-IsShown : Keeps IsShown nrf_radio_signal_ccastopped
  unfolding nrf_radio_signal_ccastopped
  ccastopped-IsShown = signal-IsShown keeps 22 [] tt

  pub txready-IsShown : Keeps IsShown nrf_radio_signal_txready
  unfolding nrf_radio_signal_txready
  txready-IsShown = signal-IsShown keeps 24 _ (start-IsShown keeps, tt)

  pub rxready-IsShown : Keeps IsShown nrf_radio_signal_rxready
  unfolding nrf_radio_signal_rxready
  rxready-IsShown = signal-IsShown keeps 25 _ (start-IsShown keeps, (ccastart-IsShown keeps, tt))

  pub sync-IsShown : Keeps IsShown nrf_radio_signal_sync
  unfolding nrf_radio_signal_sync
  sync-IsShown = signal-IsShown keeps 27 [] tt

  pub phyend-IsShown : Keeps IsShown nrf_radio_signal_phyend
  unfolding nrf_radio_signal_phyend
  phyend-IsShown = signal-IsShown keeps 28 _ (disable-IsShown, (start-IsShown keeps, tt))

  bcmatch-IsShown : Keeps IsShown nrf_radio_signal_bcmatch
  unfolding nrf_radio_signal_bcmatch
  bcmatch-IsShown = signal-IsShown keeps 14 [] tt

  pub bitcounter_timer-IsShown : Keeps IsShown nrf_radio_bitcounter_timer_triggered
  unfolding nrf_radio_bitcounter_timer_triggered
  bitcounter_timer-IsShown s h = find_next-IsShown _ (bcmatch-IsShown s h)
