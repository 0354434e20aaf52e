-- ===== src/RadioLaws/Shown/Steps.antt =====
-- STATE and radio_state of src/HW_models/NRF_RADIO.c: the steps of the radio, and the states they reach.
use ext_nrf52_hw_models.Common.{
  true, false, ◌≡◌, refl, ◌∙◌, sym, ap, if_intro, nonzero, update, ◌==◌,
}
use ext_nrf52_hw_models.Soc.{
  Soc, RadioTask, txen, rxen, start, stop, disable, rssistart, rssistop, bcstart, bcstop, edstart,
  edstop, ccastart, ccastop,
}
use ext_nrf52_hw_models.Soc.Env.{Env}
use ext_nrf52_hw_models.Radio.{
  nrf_radio_task, register_task, radio_row, with_radio, nrf_radio_regw_sideeffects_tasks,
  nrf_radio_timer_triggered, nrf_radio_timer_abort_reeval_triggered,
  nrf_radio_bitcounter_timer_triggered, nrf_radio_regw_sideeffects_power, nrf_radio_init,
  radio_reset, nrf_radio_bitcounter_reset, with_radio_on, abort_if_needed,
}
use ext_nrf52_hw_models.RadioLaws.Shown.Base.{IsShown, Keeps, KeepsShown, shown, find_next-IsShown}
use ext_nrf52_hw_models.RadioLaws.Shown.Events.{bitcounter_timer-IsShown}
use ext_nrf52_hw_models.RadioLaws.Shown.Machine.{
  nrf_radio_task-IsShown, timer_triggered-IsShown, abort_reeval-IsShown,
}

module _ ⦃env : Env⦄ where
  -- A task, by the PPI or its register, an expiry of one of the three timers, a write of POWER, and what
  -- leaves STATE and the variables of NRF_RADIO.c alone, as another model's step or the write of another register.
  pub data RadioStep : Soc → Soc → Type 0 where
    task : (t : RadioTask) (s : Soc) → RadioStep s (nrf_radio_task t s)
    register : (t : RadioTask) (s : Soc) → RadioStep s (nrf_radio_regw_sideeffects_tasks t s)
    timer : (s : Soc) → RadioStep s (nrf_radio_timer_triggered s)
    abort_reeval : (s : Soc) → RadioStep s (nrf_radio_timer_abort_reeval_triggered s)
    bit_counter : (s : Soc) → RadioStep s (nrf_radio_bitcounter_timer_triggered s)
    power : (s : Soc) → RadioStep s (nrf_radio_regw_sideeffects_power s)
    apart : (s t : Soc) → t.radio.state ≡ s.radio.state → t.radio.fsm ≡ s.radio.fsm → RadioStep s t

  -- From nrf_radio_init on.
  pub data Reached : Soc → Type 0 where
    init : (s : Soc) → Reached (nrf_radio_init s)
    next : (s t : Soc) → Reached s → RadioStep s t → Reached t

  reset-IsShown : (s : Soc) → IsShown (radio_reset s)
  unfolding radio_reset nrf_radio_bitcounter_reset
  reset-IsShown s = refl

  init-IsShown : (s : Soc) → IsShown (nrf_radio_init s)
  unfolding nrf_radio_init
  init-IsShown s = reset-IsShown s

  power-IsShown : Keeps IsShown nrf_radio_regw_sideeffects_power
  unfolding nrf_radio_regw_sideeffects_power
  power-IsShown s h =
      let off = radio_reset (abort_if_needed (with_radio_on true s)) in
      if_intro IsShown (s.radio.power == 0) {x = with_radio_on false s} h (
        if_intro IsShown s.radio.fsm.radio_on {x = s} h
          (find_next-IsShown off (reset-IsShown (abort_if_needed (with_radio_on true s)))))

  module _ (keeps : KeepsShown) where
    register_task-IsShown : (t : RadioTask) → Keeps IsShown (register_task t)
    unfolding register_task
    register_task-IsShown rssistart s h = h
    register_task-IsShown rssistop s h = h
    register_task-IsShown txen s h = nrf_radio_task-IsShown keeps txen s h
    register_task-IsShown rxen s h = nrf_radio_task-IsShown keeps rxen s h
    register_task-IsShown start s h = nrf_radio_task-IsShown keeps start s h
    register_task-IsShown stop s h = nrf_radio_task-IsShown keeps stop s h
    register_task-IsShown disable s h = nrf_radio_task-IsShown keeps disable s h
    register_task-IsShown bcstart s h = nrf_radio_task-IsShown keeps bcstart s h
    register_task-IsShown bcstop s h = nrf_radio_task-IsShown keeps bcstop s h
    register_task-IsShown edstart s h = nrf_radio_task-IsShown keeps edstart s h
    register_task-IsShown edstop s h = nrf_radio_task-IsShown keeps edstop s h
    register_task-IsShown ccastart s h = nrf_radio_task-IsShown keeps ccastart s h
    register_task-IsShown ccastop s h = nrf_radio_task-IsShown keeps ccastop s h

    regw_tasks-IsShown : (t : RadioTask) → Keeps IsShown (nrf_radio_regw_sideeffects_tasks t)
    unfolding nrf_radio_regw_sideeffects_tasks
    regw_tasks-IsShown t s h =
        let r = s.radio in
        let cleared = with_radio (record r { tasks = update r.tasks (radio_row t) 0 }) s in
        if_intro IsShown (nonzero (r.tasks (radio_row t))) {x = register_task t cleared} {y = s}
          (register_task-IsShown t cleared h) h

    step-IsShown : (s t : Soc) → RadioStep s t → IsShown s → IsShown t
    step-IsShown _ _ (task k s) h = nrf_radio_task-IsShown keeps k s h
    step-IsShown _ _ (register k s) h = regw_tasks-IsShown k s h
    step-IsShown _ _ (timer s) h = timer_triggered-IsShown keeps s h
    step-IsShown _ _ (abort_reeval s) h = abort_reeval-IsShown keeps s h
    step-IsShown _ _ (bit_counter s) h = bitcounter_timer-IsShown keeps s h
    step-IsShown _ _ (power s) h = power-IsShown s h
    step-IsShown _ _ (apart s t state fsm) h = state ∙ h ∙ ap (λ f. shown f.radio_state) (sym fsm)

    -- In every state that the radio reaches from nrf_radio_init by its tasks, its timers' expiries and writes
    -- of POWER, with any steps between them that leave STATE and the radio's variables alone, STATE shows
    -- radio_state: its value, but TX while a transmission starts and RXIDLE during a CCA or ED procedure. It
    -- is so where the calls out of the radio, the tasks that events trigger and the
    -- synchronisation of the physical layer's time, keep that STATE shows radio_state.
    pub Reached-IsShown : (s : Soc) → Reached s → IsShown s
    Reached-IsShown _ (init s) = init-IsShown s
    Reached-IsShown _ (next s t reached step) = step-IsShown s t step (Reached-IsShown s reached)
