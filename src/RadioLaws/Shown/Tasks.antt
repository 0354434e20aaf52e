-- ===== src/RadioLaws/Shown/Tasks.antt =====
-- STATE and radio_state of src/HW_models/NRF_RADIO.c: the tasks that raise no event, and the inter-frame spacing.
use ext_nrf52_hw_models.Common.{
  ◌≡◌, refl, ◌∙◌, Bool, true, false, ◌||◌, if◌then◌else◌, if_intro, arith,
}
use ext_nrf52_hw_models.Soc.{
  RadioState, rad_disabled, rad_rxru, rad_rxidle, rad_rx, rad_rxdisable, rad_txru, rad_txidle,
  rad_txstarting, rad_tx, rad_txdisable, rad_cca_ed, tifs_disable,
}
use ext_nrf52_hw_models.Soc.Env.{Env}
use ext_nrf52_hw_models.Radio.{
  enter, in_state, same_state, state_value, nrfra_set_timer_radio, abort_if_needed, start_rx,
  start_cca_ed, with_tifs_state, may_ramp_up, nrf_radio_tasks_txen, nrf_radio_tasks_rxen, begin_tx,
  nrf_radio_tasks_start, nrf_radio_tasks_ccastart, nrf_radio_tasks_edstart, stop_activity,
  is_active, nrf_radio_tasks_stop, nrf_radio_fake_task_trxen_tifs, is_waiting_for_disable,
  maybe_prepare_tifs, nrf_radio_stop_bit_counter, nrf_radio_tasks_bcstop, nrfra_is_hw_tifs_enabled,
}
use ext_nrf52_hw_models.RadioLaws.Shown.Base.{
  IsShown, Keeps, KeepsShown, shown, set_timer-IsShown, stop_bit_counter-IsShown,
}
use ext_nrf52_hw_models.RadioLaws.Shown.Phy.{start_rx-IsShown, start_cca_ed-IsShown}

shown_rxidle :
    (state : RadioState) → same_state state rad_rxidle ≡ true → shown state ≡ state_value rad_rxidle
shown_rxidle rad_rxidle e = refl
shown_rxidle rad_cca_ed e = refl
shown_rxidle rad_disabled e = absurd (ground (arith, e))
shown_rxidle rad_rxru e = absurd (ground (arith, e))
shown_rxidle rad_rx e = absurd (ground (arith, e))
shown_rxidle rad_rxdisable e = absurd (ground (arith, e))
shown_rxidle rad_txru e = absurd (ground (arith, e))
shown_rxidle rad_txidle e = absurd (ground (arith, e))
shown_rxidle rad_txstarting e = absurd (ground (arith, e))
shown_rxidle rad_tx e = absurd (ground (arith, e))
shown_rxidle rad_txdisable e = absurd (ground (arith, e))

-- A branch that a test guards may use that it holds.
if_given {ℓ κ} :
    {A : Type ℓ} (P : A → Type κ) (c : Bool) {x y : A}
    → (c ≡ true → P x)
    → P y
    → P (if c then x else y)
if_given P true p q = p refl
if_given P false p q = q

module _ ⦃env : Env⦄ where
  pub txen-IsShown : Keeps IsShown nrf_radio_tasks_txen
  unfolding nrf_radio_tasks_txen
  txen-IsShown s h =
      if_intro IsShown (may_ramp_up s) {x = nrfra_set_timer_radio _ (enter rad_txru s)} {y = s}
        (set_timer-IsShown _ (enter rad_txru s) refl) h

  pub rxen-IsShown : Keeps IsShown nrf_radio_tasks_rxen
  unfolding nrf_radio_tasks_rxen
  rxen-IsShown s h =
      let t = enter rad_rxru (with_tifs_state tifs_disable s) in
      if_intro IsShown (may_ramp_up s) {x = nrfra_set_timer_radio _ t} {y = s}
        (set_timer-IsShown _ t refl) h

  pub stop_activity-IsShown : Keeps IsShown stop_activity
  stop_activity-IsShown s h =
      if_intro IsShown (in_state rad_tx s) {x = enter rad_txidle (abort_if_needed s)} refl (
        if_intro IsShown (in_state rad_txstarting s) {x = enter rad_txidle s} refl (
          if_intro IsShown (in_state rad_rx s || in_state rad_cca_ed s)
            {x = enter rad_rxidle (abort_if_needed s)} {y = s} refl h))

  pub stop-IsShown : Keeps IsShown nrf_radio_tasks_stop
  unfolding nrf_radio_tasks_stop
  stop-IsShown s h =
      let t = nrf_radio_stop_bit_counter s in
      let kept : IsShown t = stop_bit_counter-IsShown s h in
      if_intro IsShown (is_active t) {x = nrfra_set_timer_radio env.time_never (stop_activity t)}
        {y = t} (set_timer-IsShown _ _ (stop_activity-IsShown t kept)) kept

  pub bcstop-IsShown : Keeps IsShown nrf_radio_tasks_bcstop
  unfolding nrf_radio_tasks_bcstop
  bcstop-IsShown s h = stop_bit_counter-IsShown s h

  pub fake_task-IsShown : Keeps IsShown nrf_radio_fake_task_trxen_tifs
  unfolding nrf_radio_fake_task_trxen_tifs
  fake_task-IsShown s h =
      if_intro IsShown (is_waiting_for_disable s.radio.fsm.tifs_state) {y = s}
        (set_timer-IsShown _ _ h) h

  pub prepare_tifs-IsShown : (tx_not_rx : Bool) → Keeps IsShown (maybe_prepare_tifs tx_not_rx)
  unfolding maybe_prepare_tifs
  prepare_tifs-IsShown tx_not_rx s h = if_intro IsShown (nrfra_is_hw_tifs_enabled s.radio) h h

  module _ (keeps : KeepsShown) where
    start_procedure-IsShown :
        (cca_not_ed : Bool)
        → Keeps IsShown (λ s. if in_state rad_rxidle s then start_cca_ed cca_not_ed s else s)
    start_procedure-IsShown cca_not_ed s h =
        if_given IsShown (in_state rad_rxidle s) {x = start_cca_ed cca_not_ed s} {y = s}
          (λ e.
            start_cca_ed-IsShown keeps cca_not_ed s (h ∙ shown_rxidle s.radio.fsm.radio_state e))
          h

    pub ccastart-IsShown : Keeps IsShown nrf_radio_tasks_ccastart
    unfolding nrf_radio_tasks_ccastart
    ccastart-IsShown = start_procedure-IsShown true

    pub edstart-IsShown : Keeps IsShown nrf_radio_tasks_edstart
    unfolding nrf_radio_tasks_edstart
    edstart-IsShown = start_procedure-IsShown false

    pub start-IsShown : Keeps IsShown nrf_radio_tasks_start
    unfolding nrf_radio_tasks_start
    start-IsShown s h =
        if_intro IsShown (in_state rad_txidle s) {x = nrfra_set_timer_radio _ (begin_tx s)}
          (set_timer-IsShown _ (begin_tx s) refl)
          (if_intro IsShown (in_state rad_rxidle s) {x = start_rx s} {y = s}
            (start_rx-IsShown keeps s h) h)
