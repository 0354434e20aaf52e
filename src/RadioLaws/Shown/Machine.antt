-- ===== src/RadioLaws/Shown/Machine.antt =====
-- STATE and radio_state of src/HW_models/NRF_RADIO.c: every handler of the radio's state machine.
use ext_nrf52_hw_models.Common.{
  ℕ, refl, Bool, true, false, not, ◌&&◌, Option, none, some, if_intro, nonzero, bit_and,
}
use ext_nrf52_hw_models.Soc.{
  RadioState, rad_disabled, rad_rxru, rad_rxidle, rad_rx, rad_rxdisable, rad_txru, rad_txidle,
  rad_txstarting, rad_tx, rad_txdisable, rad_cca_ed, SubState, sub_state_invalid,
  tx_wait_for_address_end, tx_wait_for_payload_end, tx_wait_for_crc_end, rx_wait_for_address_end,
  rx_wait_for_payload_end, rx_wait_for_crc_end, TifsState, tifs_disable, tifs_waiting_for_disable,
  tifs_triggering_trx_en, AbortState, no_pending_abort_reeval, tx_abort_reeval, rx_abort_reeval,
  cca_abort_reeval, RadioTask, txen, rxen, start, stop, disable, rssistart, rssistop, bcstart,
  bcstop, edstart, edstop, ccastart, ccastop,
}
use ext_nrf52_hw_models.Soc.Env.{Env}
use ext_nrf52_hw_models.Radio.{
  enter, in_state, nrfra_set_timer_radio, abort_if_needed, notify_device,
  nrf_radio_device_address_match, sample_rssi, answer_address, rx_addr_received, with_sub_state,
  tx_expiry, rx_address_end, rx_expiry, cca_ed_expiry, disable_expiry, tifs_expiry, expiry,
  nrf_radio_timer_triggered, respond, nrf_radio_timer_abort_reeval_triggered,
  nrf_radio_tasks_ccastop, nrf_radio_tasks_edstop, nrf_radio_task, nrf_radio_signal_rssiend,
  with_radio, nrf_radio_signal_crcok, nrf_radio_signal_crcerror, with_tifs_state, with_from_hw_tifs,
  nrf_radio_tasks_txen, nrf_radio_tasks_rxen, nrf_radio_signal_ccabusy, nrf_radio_signal_ccaidle,
  nrf_radio_signal_edend, nrf_radio_signal_ccastopped, nrf_radio_signal_edstopped,
}
use ext_nrf52_hw_models.RadioLaws.Shown.Base.{
  IsShown, Keeps, KeepsShown, set_timer-IsShown, set_abort-IsShown, stop_bit_counter-IsShown,
  find_next-IsShown, bcstart-IsShown, rssistart-IsShown, rssistop-IsShown,
}
use ext_nrf52_hw_models.RadioLaws.Shown.Ccm.{received_packet-IsShown}
use ext_nrf52_hw_models.RadioLaws.Shown.Phy.{
  set_rxcrc-IsShown, ask_rx-IsShown, handle_rx-IsShown, start_tx-IsShown, tx_respond-IsShown,
  rx_respond-IsShown, cca_respond-IsShown,
}
use ext_nrf52_hw_models.RadioLaws.Shown.Tasks.{
  txen-IsShown, rxen-IsShown, stop-IsShown, bcstop-IsShown, prepare_tifs-IsShown, ccastart-IsShown,
  edstart-IsShown, start-IsShown,
}
use ext_nrf52_hw_models.RadioLaws.Shown.Events.{
  disabled-IsShown, disable-IsShown, ready-IsShown, address-IsShown, payload-IsShown, end-IsShown,
  devmatch-IsShown, devmiss-IsShown, rssiend-IsShown, crcok-IsShown, crcerror-IsShown,
  framestart-IsShown, edend-IsShown, edstopped-IsShown, ccaidle-IsShown, ccabusy-IsShown,
  ccastopped-IsShown, txready-IsShown, rxready-IsShown, sync-IsShown, phyend-IsShown,
}

module _ ⦃env : Env⦄ (keeps : KeepsShown) where
  notify-IsShown : (device : Option ℕ) → Keeps IsShown (notify_device device)
  unfolding notify_device
  notify-IsShown none s h = devmiss-IsShown keeps s h
  notify-IsShown (some i) s h = devmatch-IsShown keeps _ h

  device_match-IsShown : Keeps IsShown nrf_radio_device_address_match
  unfolding nrf_radio_device_address_match
  device_match-IsShown s h = notify-IsShown _ s h

  sample_rssi-IsShown : Keeps IsShown sample_rssi
  sample_rssi-IsShown s h =
      if_intro IsShown s.radio.rssi_sampling_on {x = nrf_radio_signal_rssiend _} {y = s}
        (rssiend-IsShown keeps _ h) h

  answer-IsShown : (accept_packet : Bool) → Keeps IsShown (answer_address accept_packet)
  unfolding answer_address
  answer-IsShown true s h = handle_rx-IsShown keeps _ _ (ask_rx-IsShown keeps s h)
  answer-IsShown false s h =
      received_packet-IsShown keeps _ _ (set_rxcrc-IsShown _ _ (ask_rx-IsShown keeps s h))

  addr_received-IsShown : Keeps IsShown rx_addr_received
  unfolding rx_addr_received
  addr_received-IsShown s h =
      let t = sample_rssi s in
      let sampled : IsShown t = sample_rssi-IsShown s h in
      let matched = with_radio (record (t.radio) { rxmatch = 0 }) t in
      answer-IsShown _ _ (
        if_intro IsShown (nonzero (bit_and t.radio.dacnf 0xff))
          {x = nrf_radio_device_address_match matched} {y = matched}
          (device_match-IsShown matched sampled) sampled)

  tx_expiry-IsShown : (sub : SubState) → Keeps IsShown (tx_expiry sub)
  unfolding tx_expiry
  tx_expiry-IsShown tx_wait_for_address_end s h =
      framestart-IsShown keeps _
        (address-IsShown keeps _ (set_timer-IsShown _ (with_sub_state tx_wait_for_payload_end s) h))
  tx_expiry-IsShown tx_wait_for_payload_end s h =
      payload-IsShown keeps _ (set_timer-IsShown _ (with_sub_state tx_wait_for_crc_end s) h)
  tx_expiry-IsShown tx_wait_for_crc_end s h = prepare_tifs-IsShown true _ (
      phyend-IsShown keeps _ (
        end-IsShown keeps _ (
          stop_bit_counter-IsShown _
            (set_timer-IsShown _ (enter rad_txidle (with_sub_state sub_state_invalid s)) refl))))
  tx_expiry-IsShown sub_state_invalid s h = h
  tx_expiry-IsShown rx_wait_for_address_end s h = h
  tx_expiry-IsShown rx_wait_for_payload_end s h = h
  tx_expiry-IsShown rx_wait_for_crc_end s h = h

  address_end-IsShown : Keeps IsShown rx_address_end
  address_end-IsShown s h = set_timer-IsShown _ _ (
      addr_received-IsShown _ (
        framestart-IsShown keeps _ (
          address-IsShown keeps _
            (sync-IsShown keeps _ (find_next-IsShown _ (set_timer-IsShown _ s h))))))

  rx_expiry-IsShown : (sub : SubState) → Keeps IsShown (rx_expiry sub)
  unfolding rx_expiry
  rx_expiry-IsShown rx_wait_for_address_end s h = address_end-IsShown s h
  rx_expiry-IsShown rx_wait_for_payload_end s h =
      payload-IsShown keeps _ (set_timer-IsShown _ (with_sub_state rx_wait_for_crc_end s) h)
  rx_expiry-IsShown rx_wait_for_crc_end s h =
      let idle =
        nrfra_set_timer_radio env.time_never
          (enter rad_rxidle (with_sub_state sub_state_invalid s)) in
      let kept : IsShown idle =
        set_timer-IsShown _ (enter rad_rxidle (with_sub_state sub_state_invalid s)) refl in
      prepare_tifs-IsShown false _ (
        end-IsShown keeps _ (
          phyend-IsShown keeps _ (
            stop_bit_counter-IsShown _ (
              if_intro IsShown idle.radio.fsm.rx_status.crc_ok {x = nrf_radio_signal_crcok idle}
                {y = nrf_radio_signal_crcerror idle} (crcok-IsShown keeps idle kept)
                (crcerror-IsShown keeps idle kept)))))
  rx_expiry-IsShown sub_state_invalid s h = h
  rx_expiry-IsShown tx_wait_for_address_end s h = h
  rx_expiry-IsShown tx_wait_for_payload_end s h = h
  rx_expiry-IsShown tx_wait_for_crc_end s h = h

  cca_ed_expiry-IsShown : Keeps IsShown cca_ed_expiry
  unfolding cca_ed_expiry
  cca_ed_expiry-IsShown s h =
      let idle = nrfra_set_timer_radio env.time_never (enter rad_rxidle s) in
      let kept : IsShown idle = set_timer-IsShown _ (enter rad_rxidle s) refl in
      if_intro IsShown idle.radio.fsm.cca_status.cca_not_ed {y = nrf_radio_signal_edend idle}
        (if_intro IsShown idle.radio.fsm.cca_status.is_busy {x = nrf_radio_signal_ccabusy idle}
          {y = nrf_radio_signal_ccaidle idle} (ccabusy-IsShown keeps idle kept)
          (ccaidle-IsShown keeps idle kept))
        (edend-IsShown keeps idle kept)

  disable_expiry-IsShown : Keeps IsShown disable_expiry
  unfolding disable_expiry
  disable_expiry-IsShown s h =
      disabled-IsShown keeps _
        (stop_bit_counter-IsShown _ (set_timer-IsShown _ (enter rad_disabled s) refl))

  tifs_expiry-IsShown : (t : TifsState) → Keeps IsShown (tifs_expiry t)
  unfolding tifs_expiry
  tifs_expiry-IsShown tifs_triggering_trx_en s h =
      let quiet = nrfra_set_timer_radio env.time_never (with_tifs_state tifs_disable s) in
      let kept : IsShown quiet = set_timer-IsShown _ (with_tifs_state tifs_disable s) h in
      let t = with_from_hw_tifs true quiet in
      if_intro IsShown t.radio.fsm.tifs_to_tx_not_rx {x = nrf_radio_tasks_txen t}
        {y = nrf_radio_tasks_rxen t} (txen-IsShown t kept) (rxen-IsShown t kept)
  tifs_expiry-IsShown tifs_disable s h = h
  tifs_expiry-IsShown tifs_waiting_for_disable s h = h

  expiry-IsShown : (state : RadioState) → Keeps IsShown (expiry state)
  unfolding expiry
  expiry-IsShown rad_txru s h =
      txready-IsShown keeps _
        (ready-IsShown keeps _ (set_timer-IsShown _ (enter rad_txidle s) refl))
  expiry-IsShown rad_rxru s h =
      rxready-IsShown keeps _
        (ready-IsShown keeps _ (set_timer-IsShown _ (enter rad_rxidle s) refl))
  expiry-IsShown rad_txstarting s h = start_tx-IsShown keeps _
  expiry-IsShown rad_tx s h = tx_expiry-IsShown _ s h
  expiry-IsShown rad_rx s h = rx_expiry-IsShown _ s h
  expiry-IsShown rad_cca_ed s h = cca_ed_expiry-IsShown s h
  expiry-IsShown rad_txdisable s h = disable_expiry-IsShown s h
  expiry-IsShown rad_rxdisable s h = disable_expiry-IsShown s h
  expiry-IsShown rad_disabled s h = tifs_expiry-IsShown _ s h
  expiry-IsShown rad_txidle s h = h
  expiry-IsShown rad_rxidle s h = h

  -- A call of nrf_radio_timer_triggered, in any state, keeps that STATE shows radio_state, where the calls out of the radio keep it.
  pub timer_triggered-IsShown : Keeps IsShown nrf_radio_timer_triggered
  unfolding nrf_radio_timer_triggered
  timer_triggered-IsShown s h = expiry-IsShown _ s h

  respond-IsShown : (a : AbortState) → Keeps IsShown (respond a)
  unfolding respond
  respond-IsShown tx_abort_reeval s h = tx_respond-IsShown keeps s h
  respond-IsShown rx_abort_reeval s h = rx_respond-IsShown keeps s h
  respond-IsShown cca_abort_reeval s h = cca_respond-IsShown keeps s h
  respond-IsShown no_pending_abort_reeval s h = h

  -- So does the timer of the abort reevaluations.
  pub abort_reeval-IsShown : Keeps IsShown nrf_radio_timer_abort_reeval_triggered
  unfolding nrf_radio_timer_abort_reeval_triggered
  abort_reeval-IsShown s h = respond-IsShown _ _ (set_abort-IsShown _ s h)

  ccastop-IsShown : Keeps IsShown nrf_radio_tasks_ccastop
  unfolding nrf_radio_tasks_ccastop
  ccastop-IsShown s h =
      if_intro IsShown (in_state rad_cca_ed s && s.radio.fsm.cca_status.cca_not_ed)
        {x = nrf_radio_signal_ccastopped _} {y = s}
        (ccastopped-IsShown keeps _
          (set_timer-IsShown _ (enter rad_rxidle (abort_if_needed s)) refl))
        h

  edstop-IsShown : Keeps IsShown nrf_radio_tasks_edstop
  unfolding nrf_radio_tasks_edstop
  edstop-IsShown s h =
      if_intro IsShown (in_state rad_cca_ed s && not s.radio.fsm.cca_status.cca_not_ed)
        {x = nrf_radio_signal_edstopped _} {y = s}
        (edstopped-IsShown keeps _
          (set_timer-IsShown _ (enter rad_rxidle (abort_if_needed s)) refl))
        h

  -- So does each of the thirteen tasks.
  pub nrf_radio_task-IsShown : (t : RadioTask) → Keeps IsShown (nrf_radio_task t)
  unfolding nrf_radio_task
  nrf_radio_task-IsShown txen = txen-IsShown
  nrf_radio_task-IsShown rxen = rxen-IsShown
  nrf_radio_task-IsShown start = start-IsShown keeps
  nrf_radio_task-IsShown stop = stop-IsShown
  nrf_radio_task-IsShown disable = disable-IsShown keeps
  nrf_radio_task-IsShown rssistart = rssistart-IsShown
  nrf_radio_task-IsShown rssistop = rssistop-IsShown
  nrf_radio_task-IsShown bcstart = bcstart-IsShown
  nrf_radio_task-IsShown bcstop = bcstop-IsShown
  nrf_radio_task-IsShown edstart = edstart-IsShown keeps
  nrf_radio_task-IsShown edstop = edstop-IsShown
  nrf_radio_task-IsShown ccastart = ccastart-IsShown keeps
  nrf_radio_task-IsShown ccastop = ccastop-IsShown
