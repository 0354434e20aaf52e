-- ===== src/ClockLaws/Pending.antt =====
-- The state machines of src/HW_models/NRF_CLOCK.c and the timers they wait for.
use ext_nrf52_hw_models.Common.{
  ℕ, ◌+◌, ◌*◌, ◌^◌, ◌<◌, ◌≡◌, refl, false, not, ◌&&◌, ◌||◌, ◌==◌, ==_refl, if_intro, nonzero, add64,
  u64, arith,
}
use ext_nrf52_hw_models.Soc.{Soc, Clock, Ppi}
use ext_nrf52_hw_models.Soc.Env.{Env}
use ext_nrf52_hw_models.PpiLaws.Idle.{IsUnheard, IgnoresUnheard}
use ext_nrf52_hw_models.TopLaws.Scheduled.{IsApart, find_next-apart}
use ext_nrf52_hw_models.IrqLaws.Apart.{raise-apart, lower-apart}
use ext_nrf52_hw_models.Clock.{
  ClockEvent, ClockTask, lfclkstart, lfclkstop, hfclkstart, hfclkstop, cal, ctstart, ctstop,
  task_index, clock_ppi_event, with_clock, is_stopped, is_starting, is_started, is_stopping, bs_min,
  nrf_clock_update_master_timer, set_event, hfclkstarted, lfclkstarted, done, ctto, ctstarted,
  ctstopped, wants_interrupt, nrf_clock_eval_interrupt, nrf_clock_event, nrf_clock_task,
  nrf_clock_tasks_lfclkstart, nrf_clock_tasks_lfclkstop, nrf_clock_tasks_hfclkstart,
  nrf_clock_tasks_hfclkstop, nrf_clock_tasks_cal, nrf_clock_tasks_ctstart, nrf_clock_tasks_ctstop,
  nrf_clock_reqw_sideeffects_tasks,
}

ppi-IsApart : IsApart (λ (s : Soc). s.ppi)
ppi-IsApart = record { apart = λ s c m n k h. refl }

pub clock-IsApart : IsApart (λ (s : Soc). s.clock)
clock-IsApart = record { apart = λ s c m n k h. refl }

abbrev pub earliest : Clock → ℕ
earliest c = bs_min (bs_min c.timer_hf c.timer_lf) (bs_min c.timer_lf_cal c.timer_caltimer)

module _ ⦃env : Env⦄ where
  -- The timers of the HF clock, of the calibration and of its timer are set exactly while these have
  -- something to come.
  abbrev pub IsPending : Clock → Type 0
  IsPending c =
      ((is_starting c.hf_state || is_stopping c.hf_state) ≡ not (c.timer_hf == env.time_never))
      × (is_started c.lf_cal_state ≡ not (c.timer_lf_cal == env.time_never))
      × (is_started c.caltimer_state ≡ not (c.timer_caltimer == env.time_never))

  -- And the model's timer is the earliest of the four.
  abbrev pub IsWell : Clock → Type 0
  IsWell c = IsPending c × (c.timer ≡ earliest c)

  pub update-IsWell : (s : Soc) → IsPending s.clock → IsWell (nrf_clock_update_master_timer s).clock
  unfolding nrf_clock_update_master_timer
  update-IsWell s p = rw (find_next-apart (λ (t : Soc). t.clock) clock-IsApart _) (p, refl)

  pub update-ppi : (s : Soc) → (nrf_clock_update_master_timer s).ppi ≡ s.ppi
  unfolding nrf_clock_update_master_timer
  update-ppi s = find_next-apart (λ (t : Soc). t.ppi) ppi-IsApart _

  eval_interrupt-ppi : (s : Soc) → (nrf_clock_eval_interrupt s).ppi ≡ s.ppi
  unfolding nrf_clock_eval_interrupt
  eval_interrupt-ppi s =
      if_intro (λ (t : Soc). t.ppi ≡ s.ppi) (not s.clock.int_line && wants_interrupt s.clock)
        (raise-apart (λ (t : Soc). t.ppi) ppi-IsApart _ _)
        (if_intro (λ (t : Soc). t.ppi ≡ s.ppi) (s.clock.int_line && not (wants_interrupt s.clock))
          (lower-apart (λ (t : Soc). t.ppi) ppi-IsApart _ _) refl)

  eval_interrupt-IsWell : (s : Soc) → IsWell s.clock → IsWell (nrf_clock_eval_interrupt s).clock
  unfolding nrf_clock_eval_interrupt
  eval_interrupt-IsWell s w =
      if_intro (λ (t : Soc). IsWell t.clock) (not s.clock.int_line && wants_interrupt s.clock)
        (rw (raise-apart (λ (t : Soc). t.clock) clock-IsApart _ _) w)
        (if_intro (λ (t : Soc). IsWell t.clock) (s.clock.int_line && not (wants_interrupt s.clock))
          (rw (lower-apart (λ (t : Soc). t.clock) clock-IsApart _ _) w) w)

  set_event-IsWell : (e : ClockEvent) (c : Clock) → IsWell c → IsWell (set_event e c)
  set_event-IsWell hfclkstarted c w = w
  set_event-IsWell lfclkstarted c w = w
  set_event-IsWell done c w = w
  set_event-IsWell ctto c w = w
  set_event-IsWell ctstarted c w = w
  set_event-IsWell ctstopped c w = w

  -- No enabled channel listens to the event.
  abbrev pub IsQuiet : ClockEvent → Ppi → Type 0
  IsQuiet e p = IsUnheard (clock_ppi_event e) p

  module _ (ignores : IgnoresUnheard env) where
    -- Then it sets its register, and the line.
    pub event_lem :
        (e : ClockEvent) (s : Soc) (p : Ppi)
        → s.ppi ≡ p
        → IsQuiet e p
        → nrf_clock_event e s ≡ nrf_clock_eval_interrupt (with_clock (set_event e s.clock) s)
    unfolding nrf_clock_event
    event_lem e s p same quiet =
        let t = with_clock (set_event e s.clock) s in
        let here : IsQuiet e (nrf_clock_eval_interrupt t).ppi =
          rw (eval_interrupt-ppi t, same) quiet in
        ignores.ignored _ (nrf_clock_eval_interrupt t) here

    pub event-IsWell :
        (e : ClockEvent) (s : Soc) (p : Ppi)
        → s.ppi ≡ p
        → IsQuiet e p
        → IsWell s.clock
        → IsWell (nrf_clock_event e s).clock
    event-IsWell e s p same quiet w =
        rw (event_lem e s p same quiet) (eval_interrupt-IsWell _ (set_event-IsWell e s.clock w))

    hfclkstart-IsWell :
        (s : Soc)
        → (s.now == env.time_never) ≡ false
        → IsWell s.clock
        → IsWell (nrf_clock_tasks_hfclkstart s).clock
    unfolding nrf_clock_tasks_hfclkstart
    hfclkstart-IsWell s in_time w =
        if_intro (λ (t : Soc). IsWell t.clock)
          (is_stopped s.clock.hf_state || is_stopping s.clock.hf_state)
          (update-IsWell _ (rw in_time refl, w.0.1, w.0.2)) w

    hfclkstop-IsWell :
        (s : Soc)
        → (s.now == env.time_never) ≡ false
        → IsWell s.clock
        → IsWell (nrf_clock_tasks_hfclkstop s).clock
    unfolding nrf_clock_tasks_hfclkstop
    hfclkstop-IsWell s in_time w =
        if_intro (λ (t : Soc). IsWell t.clock)
          (is_started s.clock.hf_state || is_starting s.clock.hf_state)
          (update-IsWell _ (rw in_time refl, w.0.1, w.0.2)) w

    ctstart-IsWell :
        (s : Soc)
        → s.now + s.clock.ctiv * 250000 < env.time_never
        → env.time_never < 2 ^ 64
        → IsQuiet ctstarted s.ppi
        → IsWell s.clock
        → IsWell (nrf_clock_tasks_ctstart s).clock
    unfolding nrf_clock_tasks_ctstart
    ctstart-IsWell s in_time word quiet w =
        let apart : (add64 s.now (u64 (s.clock.ctiv * 250000)) == env.time_never) ≡ false =
          ground arith in
        event-IsWell ctstarted _ s.ppi
          (if_intro (λ (t : Soc). t.ppi ≡ s.ppi) (is_started s.clock.caltimer_state) refl
            (update-ppi _))
          quiet
          (if_intro (λ (t : Soc). IsWell t.clock) (is_started s.clock.caltimer_state) w
            (update-IsWell _ (w.0.0, w.0.1, rw apart refl)))

    lfclkstop-IsWell : (s : Soc) → IsWell s.clock → IsWell (nrf_clock_tasks_lfclkstop s).clock
    unfolding nrf_clock_tasks_lfclkstop
    lfclkstop-IsWell s w =
        if_intro (λ (t : Soc). IsWell t.clock)
          (is_started s.clock.lf_state || is_starting s.clock.lf_state) (update-IsWell _ w.0) w

    task-IsWell :
        (t : ClockTask) (s : Soc)
        → s.now + s.clock.ctiv * 250000 < env.time_never
        → env.time_never < 2 ^ 64
        → IsQuiet ctstarted s.ppi × IsQuiet ctstopped s.ppi
        → IsWell s.clock
        → IsWell (nrf_clock_task t s).clock
    unfolding nrf_clock_task nrf_clock_tasks_lfclkstart nrf_clock_tasks_cal nrf_clock_tasks_ctstop
    task-IsWell lfclkstart s in_time word quiet w = update-IsWell _ w.0
    task-IsWell lfclkstop s in_time word quiet w = lfclkstop-IsWell s w
    task-IsWell hfclkstart s in_time word quiet w =
        let apart : (s.now == env.time_never) ≡ false = ground arith in hfclkstart-IsWell s apart w
    task-IsWell hfclkstop s in_time word quiet w =
        let apart : (s.now == env.time_never) ≡ false = ground arith in hfclkstop-IsWell s apart w
    task-IsWell cal s in_time word quiet w =
        let apart : (s.now == env.time_never) ≡ false = ground arith in
        update-IsWell _ (w.0.0, rw apart refl, w.0.2)
    task-IsWell ctstart s in_time word quiet w = ctstart-IsWell s in_time word quiet.0 w
    task-IsWell ctstop s in_time word quiet w =
        event-IsWell ctstopped _ s.ppi (update-ppi _) quiet.1
          (update-IsWell _ (w.0.0, w.0.1, rw (==_refl env.time_never) refl))

    -- If an event that no enabled channel listens to does nothing, none listens to CTSTARTED and
    -- CTSTOPPED, and the time with the interval of the calibration timer is before TIME_NEVER, which is a
    -- 64-bit word: a write to any of the task registers keeps the timers of the HF clock, of the calibration
    -- and of the calibration timer (not that of the LF clock) set exactly while these have something to
    -- come, and the model's timer the earliest of the four.
    pub tasks-IsWell :
        (t : ClockTask) (s : Soc)
        → s.now + s.clock.ctiv * 250000 < env.time_never
        → env.time_never < 2 ^ 64
        → IsQuiet ctstarted s.ppi × IsQuiet ctstopped s.ppi
        → IsWell s.clock
        → IsWell (nrf_clock_reqw_sideeffects_tasks t s).clock
    unfolding nrf_clock_reqw_sideeffects_tasks
    tasks-IsWell t s in_time word quiet w =
        if_intro (λ (u : Soc). IsWell u.clock) (nonzero (s.clock.tasks (task_index t)))
          (task-IsWell t _ in_time word quiet w) w
