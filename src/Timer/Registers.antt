-- ===== src/Timer/Registers.antt =====
-- src/HW_models/NRF_TIMER.c: the effects of writes to the registers, and the initial state.
use ext_nrf52_hw_models.Common.{
  ℕ, false, leb, if◌then◌else◌, nonzero, bit_or, clear32, update, for_range,
}
use ext_nrf52_hw_models.Soc.{Soc, Tim, Timers}
use ext_nrf52_hw_models.Soc.Env.{Env}
use ext_nrf52_hw_models.Irq.{trace_error}
use ext_nrf52_hw_models.Timer.Count.{
  n_timers, timer_n_ccs, is_timing, update_cc_timer, clear_cc_timers, update_master_timer,
}
use ext_nrf52_hw_models.Timer.Tasks.{
  tim, with_tim, nrf_timer_eval_interrupts, nrf_timer_task_start, nrf_timer_task_stop,
  nrf_timer_task_shutdown, nrf_timer_task_capture, nrf_timer_task_clear, nrf_timer_task_count,
}

module _ ⦃env : Env⦄ where
  -- One instance after nrf_hw_model_timer_init; TIMER_int_line is not touched.
  unfoldable pub init_tim : ℕ → Tim → Tim
  init_tim n m = clear_cc_timers n (record m {
    prescaler = 0;
    bitmode = 0;
    mode = 0;
    shorts = 0;
    intenset = 0;
    intenclr = 0;
    cc = λ i. 0;
    events_compare = λ i. 0;
    tasks_start = 0;
    tasks_stop = 0;
    tasks_shutdown = 0;
    tasks_clear = 0;
    tasks_count = 0;
    tasks_capture = λ i. 0;
    inten = 0;
    running = false;
    start_t = env.time_never;
    counter = 0;
  })

  unfoldable pub nrf_hw_model_timer_init : Timers → Timers
  unfolding for_range init_tim
  nrf_hw_model_timer_init ts = record {
    timer = env.time_never;
    inst =
        for_range n_timers 0 (λ t inst. update inst t (init_tim (timer_n_ccs t) (inst t))) ts.inst;
  }

  unfoldable pub nrf_timer_regw_sideeffects_tasks_start : ℕ → Soc → Soc
  nrf_timer_regw_sideeffects_tasks_start t s =
      if nonzero (tim t s).tasks_start
      then nrf_timer_task_start t (with_tim t (record (tim t s) { tasks_start = 0 }) s)
      else s

  unfoldable pub nrf_timer_regw_sideeffects_tasks_stop : ℕ → Soc → Soc
  nrf_timer_regw_sideeffects_tasks_stop t s =
      if nonzero (tim t s).tasks_stop
      then nrf_timer_task_stop t (with_tim t (record (tim t s) { tasks_stop = 0 }) s)
      else s

  unfoldable pub nrf_timer_regw_sideeffects_tasks_shutdown : ℕ → Soc → Soc
  nrf_timer_regw_sideeffects_tasks_shutdown t s =
      if nonzero (tim t s).tasks_shutdown
      then nrf_timer_task_shutdown t (with_tim t (record (tim t s) { tasks_shutdown = 0 }) s)
      else s

  unfoldable pub nrf_timer_regw_sideeffects_tasks_capture : ℕ → ℕ → Soc → Soc
  nrf_timer_regw_sideeffects_tasks_capture t cc_n s =
      let m = tim t s in
      if nonzero (m.tasks_capture cc_n)
      then nrf_timer_task_capture t cc_n
          (with_tim t (record m { tasks_capture = update m.tasks_capture cc_n 0 }) s)
      else s

  unfoldable pub nrf_timer_regw_sideeffects_tasks_clear : ℕ → Soc → Soc
  nrf_timer_regw_sideeffects_tasks_clear t s =
      if nonzero (tim t s).tasks_clear
      then nrf_timer_task_clear t (with_tim t (record (tim t s) { tasks_clear = 0 }) s)
      else s

  unfoldable pub nrf_timer_regw_sideeffects_tasks_count : ℕ → Soc → Soc
  nrf_timer_regw_sideeffects_tasks_count t s =
      if nonzero (tim t s).tasks_count
      then nrf_timer_task_count t (with_tim t (record (tim t s) { tasks_count = 0 }) s)
      else s

  unfoldable pub nrf_timer_regw_sideeffects_events_all : ℕ → Soc → Soc
  nrf_timer_regw_sideeffects_events_all t s = nrf_timer_eval_interrupts t s

  unfoldable pub nrf_timer_regw_sideeffects_intenset : ℕ → Soc → Soc
  nrf_timer_regw_sideeffects_intenset t s =
      let m = tim t s in
      let inten = bit_or m.inten m.intenset in
      if nonzero m.intenset
      then nrf_timer_eval_interrupts t (with_tim t (record m { inten = inten; intenset = inten }) s)
      else s

  unfoldable pub nrf_timer_regw_sideeffects_intenclr : ℕ → Soc → Soc
  nrf_timer_regw_sideeffects_intenclr t s =
      let m = tim t s in
      let inten = clear32 m.inten m.intenclr in
      if nonzero m.intenclr
      then nrf_timer_eval_interrupts t
          (with_tim t (record m { inten = inten; intenset = inten; intenclr = 0 }) s)
      else s

  unfoldable pub nrf_timer_regw_sideeffects_cc : ℕ → ℕ → Soc → Soc
  nrf_timer_regw_sideeffects_cc t cc_n s =
      let m = tim t s in
      if leb (timer_n_ccs t) cc_n
      then trace_error s
      else if is_timing m
      then update_master_timer (with_tim t (update_cc_timer s.now cc_n m) s)
      else s
