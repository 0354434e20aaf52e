-- ===== src/Timer/Tasks.antt =====
-- src/HW_models/NRF_TIMER.c: the tasks, the interrupt line, and the event timer.
use ext_nrf52_hw_models.Common.{
  ℕ, ◌+◌, ◌-◌, ◌*◌, ◌^◌, Bool, true, false, not, ◌&&◌, ◌||◌, List, [], ◌∷◌, leb, ltb, ◌==◌,
  if◌then◌else◌, nonzero, bit_and, u32, sub64, get_or, update, for_range,
}
use ext_nrf52_hw_models.Soc.{Soc, Tim, Timers}
use ext_nrf52_hw_models.Soc.Env.{Env}
use ext_nrf52_hw_models.Irq.{
  hw_irq_ctrl_raise_level_irq_line, hw_irq_ctrl_lower_level_irq_line, trace_error,
}
use ext_nrf52_hw_models.Timer.Count.{
  n_timers, timer_n_ccs, time_to_counter, counter_to_time, mask_from_bitmode, is_timing,
  update_cc_timer, update_all_cc_timers, clear_cc_timers, update_master_timer,
}

abbrev pub tim : ℕ → Soc → Tim
tim t s = s.timers.inst t

abbrev pub with_tim : ℕ → Tim → Soc → Soc
with_tim t m s = record s { timers = record (s.timers) { inst = update s.timers.inst t m } }

-- TIMER<t>_EVENTS_COMPARE_0 of NRF_PPI.h; the channels follow.
abbrev pub timer_event_base : ℕ → ℕ
timer_event_base t = get_or (39 ∷ 43 ∷ 47 ∷ 169 ∷ []) t 175

module _ ⦃env : Env⦄ where
  -- Does an enabled compare event stand? (The loop of nrf_timer_eval_interrupts.)
  unfoldable pub wants_interrupt : ℕ → Tim → Bool
  unfolding for_range
  wants_interrupt n m =
      for_range n 0
        (λ cc line.
          line
          || nonzero (m.events_compare cc)
            && nonzero (bit_and m.inten (u32 (env.mdk.timer_intenset_compare0_msk * 2 ^ cc))))
        false

  -- nrf_timer_get_irq_number is mdk.timer_irqn, and -1 from the fifth instance on.
  unfoldable pub nrf_timer_get_irq_number : ℕ → ℕ
  nrf_timer_get_irq_number t = if ltb t n_timers then env.mdk.timer_irqn t else 2 ^ 32 - 1

  unfoldable pub nrf_timer_eval_interrupts : ℕ → Soc → Soc
  unfolding wants_interrupt
  nrf_timer_eval_interrupts t s =
      let m = tim t s in
      let new_int_line = wants_interrupt (timer_n_ccs t) m in
      if not m.int_line && new_int_line
      then hw_irq_ctrl_raise_level_irq_line (nrf_timer_get_irq_number t)
          (with_tim t (record m { int_line = true }) s)
      else if m.int_line && not new_int_line
      then hw_irq_ctrl_lower_level_irq_line (nrf_timer_get_irq_number t)
          (with_tim t (record m { int_line = false }) s)
      else s

  unfoldable pub nrf_timer_task_start : ℕ → Soc → Soc
  nrf_timer_task_start t s =
      let m = tim t s in
      let on = record m { running = true } in
      let earlier = record on { start_t = sub64 s.now (counter_to_time m.counter m) } in
      if m.running
      then s
      else if m.mode == 0
      then update_master_timer (with_tim t (update_all_cc_timers s.now (timer_n_ccs t) earlier) s)
      else with_tim t on s

  unfoldable pub nrf_timer_task_stop : ℕ → Soc → Soc
  nrf_timer_task_stop t s =
      let m = tim t s in
      let off = record m {
        running = false;
        counter = if m.mode == 0 then time_to_counter (sub64 s.now m.start_t) m else m.counter;
      } in
      if m.running
      then update_master_timer (with_tim t (clear_cc_timers (timer_n_ccs t) off) s)
      else s

  unfoldable pub nrf_timer_task_shutdown : ℕ → Soc → Soc
  nrf_timer_task_shutdown t s =
      let off = record (tim t s) { running = false; counter = 0; start_t = env.time_never } in
      update_master_timer (with_tim t (clear_cc_timers (timer_n_ccs t) off) s)

  unfoldable pub nrf_timer_task_capture : ℕ → ℕ → Soc → Soc
  nrf_timer_task_capture t cc_n s =
      let m = tim t s in
      let counted = bit_and m.counter (mask_from_bitmode m) in
      let elapsed = sub64 s.now m.start_t in
      let timed = bit_and (time_to_counter elapsed m) (mask_from_bitmode m) in
      if leb (timer_n_ccs t) cc_n
      then trace_error s
      else if m.mode == 0
      then update_master_timer
          (with_tim t (update_cc_timer s.now cc_n (record m { cc = update m.cc cc_n timed })) s)
      else with_tim t (record m { cc = update m.cc cc_n counted }) s

  unfoldable pub nrf_timer_task_clear : ℕ → Soc → Soc
  nrf_timer_task_clear t s =
      let zeroed = record (tim t s) { counter = 0 } in
      if zeroed.mode == 0
      then update_master_timer (
          with_tim t
            (update_all_cc_timers s.now (timer_n_ccs t) (record zeroed { start_t = s.now })) s)
      else with_tim t zeroed s

  -- NRF_TIMER_regs[t].SHORTS & (msk << cc)
  abbrev pub has_short : ℕ → ℕ → ℕ → Soc → Bool
  has_short msk t cc s = nonzero (bit_and (tim t s).shorts (u32 (msk * 2 ^ cc)))

  unfoldable pub nrf_timer_signal_compare : ℕ → ℕ → Soc → Soc
  nrf_timer_signal_compare t cc s =
      let s1 =
        if has_short env.mdk.timer_shorts_compare0_clear_msk t cc s
        then nrf_timer_task_clear t s
        else s in
      let s2 =
        if has_short env.mdk.timer_shorts_compare0_stop_msk t cc s1
        then nrf_timer_task_stop t s1
        else s1 in
      let m = tim t s2 in
      let s3 = with_tim t (record m { events_compare = update m.events_compare cc 1 }) s2 in
      env.nrf_ppi_event (timer_event_base t + cc) (nrf_timer_eval_interrupts t s3)

  -- The body of the loop of nrf_timer_TASK_COUNT.
  unfoldable pub match_count : ℕ → ℕ → Soc → Soc
  match_count t cc_n s =
      let m = tim t s in
      if m.counter == bit_and (m.cc cc_n) (mask_from_bitmode m)
      then nrf_timer_signal_compare t cc_n s
      else s

  unfoldable pub nrf_timer_task_count : ℕ → Soc → Soc
  unfolding for_range
  nrf_timer_task_count t s =
      let m = tim t s in
      let counted = record m { counter = bit_and (u32 (m.counter + 1)) (mask_from_bitmode m) } in
      if not (m.mode == 0) && m.running
      then for_range (timer_n_ccs t) 0 (match_count t) (with_tim t counted s)
      else s

  -- The matches of the instances from t on that stand at the event time, last first: the order in
  -- which the second loop of nrf_hw_model_timer_timer_triggered takes them.
  unfoldable pub matches_of : ℕ → Timers → List (ℕ × ℕ) → List (ℕ × ℕ)
  unfolding for_range
  matches_of t ts found =
      let m = ts.inst t in
      if is_timing m
      then for_range (timer_n_ccs t) 0
          (λ cc found. if m.cc_timers cc == ts.timer then (t, cc) ∷ found else found) found
      else found

  unfoldable pub all_matches : Timers → List (ℕ × ℕ)
  unfolding for_range matches_of
  all_matches ts = for_range n_timers 0 (λ t found. matches_of t ts found) []

  unfoldable pub signal_matches : List (ℕ × ℕ) → Soc → Soc
  signal_matches [] s = s
  signal_matches ((t, cc) ∷ rest) s =
      signal_matches rest
        (nrf_timer_signal_compare t cc (with_tim t (update_cc_timer s.now cc (tim t s)) s))

  unfoldable pub nrf_hw_model_timer_timer_triggered : Soc → Soc
  unfolding all_matches signal_matches
  nrf_hw_model_timer_timer_triggered s =
      update_master_timer (signal_matches (all_matches s.timers) s)
