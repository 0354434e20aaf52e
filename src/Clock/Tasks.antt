-- ===== src/Clock/Tasks.antt =====
-- src/HW_models/NRF_CLOCK.c: the tasks and the side effects of register writes.
use ext_nrf52_hw_models.Common.{
  ◌*◌, ◌||◌, if◌then◌else◌, nonzero, bit_and, bit_or, clear32, add64, u64, update,
}
use ext_nrf52_hw_models.Soc.{Soc, stopped, starting, started, stopping}
use ext_nrf52_hw_models.Soc.Env.{Env}
use ext_nrf52_hw_models.Clock.Events.{
  with_clock, is_stopped, is_starting, is_started, is_stopping, nrf_clock_update_master_timer,
  task_index, nrf_clock_eval_interrupt, nrf_clock_event, ClockTask, ctstarted, ctstopped,
  lfclkstart, lfclkstop, hfclkstart, hfclkstop, cal, ctstart, ctstop,
}

module _ ⦃env : Env⦄ where
  unfoldable pub nrf_clock_tasks_lfclkstart : Soc → Soc
  nrf_clock_tasks_lfclkstart s = nrf_clock_update_master_timer (
      with_clock
        (record (s.clock) {
          lfclksrccopy = bit_and s.clock.lfclksrc env.mdk.clock_lfclksrc_src_msk;
          lfclkrun = env.mdk.clock_lfclkrun_status_msk;
          lf_state = starting;
          timer_lf = s.now;
        })
        s)

  unfoldable pub nrf_clock_tasks_lfclkstop : Soc → Soc
  nrf_clock_tasks_lfclkstop s =
      if is_started s.clock.lf_state || is_starting s.clock.lf_state
      then nrf_clock_update_master_timer
          (with_clock (record (s.clock) { lfclkrun = 0; lf_state = stopping; timer_lf = s.now }) s)
      else s

  unfoldable pub nrf_clock_tasks_hfclkstart : Soc → Soc
  nrf_clock_tasks_hfclkstart s =
      if is_stopped s.clock.hf_state || is_stopping s.clock.hf_state
      then nrf_clock_update_master_timer (
          with_clock
            (record (s.clock) {
              hf_state = starting;
              hfclkrun = env.mdk.clock_hfclkrun_status_msk;
              timer_hf = s.now;
            })
            s)
      else s

  unfoldable pub nrf_clock_tasks_hfclkstop : Soc → Soc
  nrf_clock_tasks_hfclkstop s =
      if is_started s.clock.hf_state || is_starting s.clock.hf_state
      then nrf_clock_update_master_timer
          (with_clock (record (s.clock) { hfclkrun = 0; hf_state = stopping; timer_hf = s.now }) s)
      else s

  unfoldable pub nrf_clock_tasks_cal : Soc → Soc
  nrf_clock_tasks_cal s =
      nrf_clock_update_master_timer
        (with_clock (record (s.clock) { lf_cal_state = started; timer_lf_cal = s.now }) s)

  unfoldable pub nrf_clock_tasks_ctstart : Soc → Soc
  nrf_clock_tasks_ctstart s =
      let timeout = add64 s.now (u64 (s.clock.ctiv * 250000)) in
      let s' =
        if is_started s.clock.caltimer_state
        then s
        else nrf_clock_update_master_timer (
            with_clock (record (s.clock) { caltimer_state = started; timer_caltimer = timeout })
              s) in
      nrf_clock_event ctstarted s'

  unfoldable pub nrf_clock_tasks_ctstop : Soc → Soc
  nrf_clock_tasks_ctstop s = nrf_clock_event ctstopped (
      nrf_clock_update_master_timer (
        with_clock (record (s.clock) { caltimer_state = stopped; timer_caltimer = env.time_never })
          s))

  unfoldable pub nrf_clock_task : ClockTask → Soc → Soc
  nrf_clock_task lfclkstart s = nrf_clock_tasks_lfclkstart s
  nrf_clock_task lfclkstop s = nrf_clock_tasks_lfclkstop s
  nrf_clock_task hfclkstart s = nrf_clock_tasks_hfclkstart s
  nrf_clock_task hfclkstop s = nrf_clock_tasks_hfclkstop s
  nrf_clock_task cal s = nrf_clock_tasks_cal s
  nrf_clock_task ctstart s = nrf_clock_tasks_ctstart s
  nrf_clock_task ctstop s = nrf_clock_tasks_ctstop s

  -- The seven instances of nrf_clock_reqw_sideeffects_TASKS_.
  unfoldable pub nrf_clock_reqw_sideeffects_tasks : ClockTask → Soc → Soc
  nrf_clock_reqw_sideeffects_tasks t s =
      if nonzero (s.clock.tasks (task_index t))
      then nrf_clock_task t
          (with_clock (record (s.clock) { tasks = update s.clock.tasks (task_index t) 0 }) s)
      else s

  unfoldable pub nrf_clock_reqw_sideeffects_intenset : Soc → Soc
  nrf_clock_reqw_sideeffects_intenset s =
      let inten = bit_or s.clock.inten s.clock.intenset in
      if nonzero s.clock.intenset
      then nrf_clock_eval_interrupt
          (with_clock (record (s.clock) { inten = inten; intenset = inten }) s)
      else s

  unfoldable pub nrf_clock_reqw_sideeffects_intenclr : Soc → Soc
  nrf_clock_reqw_sideeffects_intenclr s =
      let inten = clear32 s.clock.inten s.clock.intenclr in
      if nonzero s.clock.intenclr
      then nrf_clock_eval_interrupt
          (with_clock (record (s.clock) { inten = inten; intenset = inten; intenclr = 0 }) s)
      else s

  unfoldable pub nrf_clock_regw_sideeffects_events_all : Soc → Soc
  nrf_clock_regw_sideeffects_events_all s = nrf_clock_eval_interrupt s

  unfoldable pub nrf_clock_regw_sideeffects : Soc → Soc
  nrf_clock_regw_sideeffects s = nrf_clock_reqw_sideeffects_tasks hfclkstart (
      nrf_clock_reqw_sideeffects_tasks lfclkstart
        (nrf_clock_reqw_sideeffects_intenclr (nrf_clock_reqw_sideeffects_intenset s)))
