-- ===== src/Radio/Signals.antt =====
-- src/HW_models/NRF_RADIO_signals.c: the events of the radio but DISABLED, with their shorts; and the timer
-- of NRF_RADIO_bitcounter.c.
use ext_nrf52_hw_models.Common.{[], ◌∷◌}
use ext_nrf52_hw_models.Soc.{
  Soc, address_bcstart, address_rssistart, ccabusy_disable, ccaidle_stop, ccaidle_txen,
  edend_disable, end_disable, end_start, framestart_bcstart, phyend_disable, phyend_start,
  ready_edstart, ready_start, rxready_ccastart, rxready_start, txready_start,
}
use ext_nrf52_hw_models.Soc.Env.{Env}
use ext_nrf52_hw_models.Top.{nrf_hw_find_next_timer_to_trigger}
use ext_nrf52_hw_models.Radio.Tasks.{nrf_radio_tasks_bcstart, nrf_radio_tasks_rssistart}
use ext_nrf52_hw_models.Radio.Control.{
  nrf_radio_tasks_start, nrf_radio_tasks_stop, nrf_radio_tasks_ccastart, nrf_radio_tasks_edstart,
  nrf_radio_tasks_txen,
}
use ext_nrf52_hw_models.Radio.Events.{signal, nrf_radio_tasks_disable}

module _ ⦃env : Env⦄ where
  unfoldable pub nrf_radio_signal_ready : Soc → Soc
  nrf_radio_signal_ready s =
      signal 6
        ((ready_start, nrf_radio_tasks_start) ∷ (ready_edstart, nrf_radio_tasks_edstart) ∷ []) s

  unfoldable pub nrf_radio_signal_address : Soc → Soc
  nrf_radio_signal_address s =
      signal 7
        ((address_rssistart, nrf_radio_tasks_rssistart)
          ∷ (address_bcstart, nrf_radio_tasks_bcstart)
          ∷ [])
        s

  unfoldable pub nrf_radio_signal_payload : Soc → Soc
  nrf_radio_signal_payload s = signal 8 [] s

  unfoldable pub nrf_radio_signal_end : Soc → Soc
  nrf_radio_signal_end s =
      signal 9 ((end_disable, nrf_radio_tasks_disable) ∷ (end_start, nrf_radio_tasks_start) ∷ []) s

  unfoldable pub nrf_radio_signal_devmatch : Soc → Soc
  nrf_radio_signal_devmatch s = signal 11 [] s

  unfoldable pub nrf_radio_signal_devmiss : Soc → Soc
  nrf_radio_signal_devmiss s = signal 12 [] s

  unfoldable pub nrf_radio_signal_rssiend : Soc → Soc
  nrf_radio_signal_rssiend s = signal 13 [] s

  unfoldable pub nrf_radio_signal_bcmatch : Soc → Soc
  nrf_radio_signal_bcmatch s = signal 14 [] s

  unfoldable pub nrf_radio_signal_crcok : Soc → Soc
  nrf_radio_signal_crcok s = signal 15 [] s

  unfoldable pub nrf_radio_signal_crcerror : Soc → Soc
  nrf_radio_signal_crcerror s = signal 16 [] s

  unfoldable pub nrf_radio_signal_framestart : Soc → Soc
  nrf_radio_signal_framestart s = signal 17 ((framestart_bcstart, nrf_radio_tasks_bcstart) ∷ []) s

  unfoldable pub nrf_radio_signal_edend : Soc → Soc
  nrf_radio_signal_edend s = signal 18 ((edend_disable, nrf_radio_tasks_disable) ∷ []) s

  unfoldable pub nrf_radio_signal_edstopped : Soc → Soc
  nrf_radio_signal_edstopped s = signal 19 [] s

  unfoldable pub nrf_radio_signal_ccaidle : Soc → Soc
  nrf_radio_signal_ccaidle s =
      signal 20 ((ccaidle_stop, nrf_radio_tasks_stop) ∷ (ccaidle_txen, nrf_radio_tasks_txen) ∷ []) s

  unfoldable pub nrf_radio_signal_ccabusy : Soc → Soc
  nrf_radio_signal_ccabusy s = signal 21 ((ccabusy_disable, nrf_radio_tasks_disable) ∷ []) s

  unfoldable pub nrf_radio_signal_ccastopped : Soc → Soc
  nrf_radio_signal_ccastopped s = signal 22 [] s

  unfoldable pub nrf_radio_signal_rateboost : Soc → Soc
  nrf_radio_signal_rateboost s = signal 23 [] s

  unfoldable pub nrf_radio_signal_txready : Soc → Soc
  nrf_radio_signal_txready s = signal 24 ((txready_start, nrf_radio_tasks_start) ∷ []) s

  unfoldable pub nrf_radio_signal_rxready : Soc → Soc
  nrf_radio_signal_rxready s =
      signal 25
        ((rxready_start, nrf_radio_tasks_start) ∷ (rxready_ccastart, nrf_radio_tasks_ccastart) ∷ [])
        s

  unfoldable pub nrf_radio_signal_mhrmatch : Soc → Soc
  nrf_radio_signal_mhrmatch s = signal 26 [] s

  unfoldable pub nrf_radio_signal_sync : Soc → Soc
  nrf_radio_signal_sync s = signal 27 [] s

  unfoldable pub nrf_radio_signal_phyend : Soc → Soc
  nrf_radio_signal_phyend s =
      signal 28
        ((phyend_disable, nrf_radio_tasks_disable) ∷ (phyend_start, nrf_radio_tasks_start) ∷ []) s

  unfoldable pub nrf_radio_signal_ctepresent : Soc → Soc
  nrf_radio_signal_ctepresent s = signal 29 [] s

  unfoldable pub nrf_radio_bitcounter_timer_triggered : Soc → Soc
  nrf_radio_bitcounter_timer_triggered s =
      nrf_hw_find_next_timer_to_trigger
        (record (nrf_radio_signal_bcmatch s) { timer_radio_bitcounter = env.time_never })
