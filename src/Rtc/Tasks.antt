-- ===== src/Rtc/Tasks.antt =====
-- src/HW_models/NRF_RTC.c: the tasks, the events, and the event timer.
use ext_nrf52_hw_models.Common.{
  ℕ, ◌+◌, ◌*◌, ◌^◌, true, false, [], ◌∷◌, leb, ◌==◌, if◌then◌else◌, nonzero, bit_and, bit_or, u32,
  add64, sub64, get_or, update, for_range,
}
use ext_nrf52_hw_models.Soc.{Soc, Rtc}
use ext_nrf52_hw_models.Soc.Env.{Env}
use ext_nrf52_hw_models.Irq.{hw_irq_ctrl_set_irq, trace_error}
use ext_nrf52_hw_models.Rtc.Count.{
  n_cc, rtc_counter_mask, rtc_trigger_overflow_counter_value, get_hw_time_sub_us,
  get_last_lf_tick_time_sub_us, time_sub_us_to_counter, counter_to_time_sub_us, time_fits,
  update_cc_timer, update_all_cc_timers, update_overflow_timer, update_master_timer,
}

abbrev pub rtc_of : ℕ → Soc → Rtc
rtc_of i s = s.rtcs.inst i

abbrev pub with_rtc : ℕ → Rtc → Soc → Soc
with_rtc i r s = record s { rtcs = record (s.rtcs) { inst = update s.rtcs.inst i r } }

-- The events of NRF_PPI.h.
abbrev pub get_cc_event : ℕ → ℕ
get_cc_event rtc = get_or (53 ∷ 69 ∷ 183 ∷ []) rtc 53

abbrev pub get_overflow_event : ℕ → ℕ
get_overflow_event rtc = get_or (52 ∷ 68 ∷ 182 ∷ []) rtc 52

-- The elapsed time of a counter whose start lies start_t or minus start_t_negative.
abbrev pub elapsed_sub_us : ℕ → Rtc → ℕ
elapsed_sub_us now r =
    add64 (sub64 (get_hw_time_sub_us now) r.start_t_sub_us) r.start_t_negative_sub_us

-- RTC_counter_startT_sub_us and its negative part, for the counter value at the last tick.
unfoldable pub set_start : ℕ → ℕ → Rtc → Rtc
unfolding counter_to_time_sub_us
set_start last_lf_tick_sub_us counter_val r =
    let counter_val_sub_us = counter_to_time_sub_us counter_val r in
    let at = record r {
      start_t_sub_us =
          if leb counter_val_sub_us last_lf_tick_sub_us
          then sub64 last_lf_tick_sub_us counter_val_sub_us
          else 0;
      start_t_negative_sub_us =
          if leb counter_val_sub_us last_lf_tick_sub_us
          then 0
          else sub64 counter_val_sub_us last_lf_tick_sub_us;
    } in
    record at { counter = u32 counter_val; counter_reg = u32 counter_val }

module _ ⦃env : Env⦄ where
  -- bs_trace_error in get_hw_time_sub_us.
  abbrev pub check_time : Soc → Soc
  check_time s = if time_fits s.now then s else trace_error s

  unfoldable pub update_timers : ℕ → Soc → Soc
  unfolding update_all_cc_timers update_overflow_timer
  update_timers i s =
      update_master_timer
        (with_rtc i (update_overflow_timer s.now (update_all_cc_timers s.now (rtc_of i s))) s)

  unfoldable pub set_counter_to : ℕ → ℕ → Soc → Soc
  unfolding set_start
  set_counter_to counter_val i s =
      let last = get_last_lf_tick_time_sub_us s.now s.rtcs.first_lf_tick_time_sub_us in
      update_timers i (
        with_rtc i (set_start last (bit_and counter_val rtc_counter_mask) (rtc_of i s))
          (check_time s))

  -- get_irq_t: RTC2 has no interrupt mapped, which is an error.
  unfoldable pub raise_rtc_irq : ℕ → Soc → Soc
  raise_rtc_irq i s = if i == 2 then trace_error s else hw_irq_ctrl_set_irq (env.mdk.rtc_irqn i) s

  unfoldable pub handle_event : ℕ → ℕ → ℕ → Soc → Soc
  handle_event i event mask s =
      let s1 = if nonzero (bit_and (rtc_of i s).evten mask) then env.nrf_ppi_event event s else s in
      let s2 = if nonzero (bit_and (rtc_of i s1).inten mask) then raise_rtc_irq i s1 else s1 in
      if nonzero (bit_and (bit_or (rtc_of i s).evten (rtc_of i s).inten) mask) then s2 else s

  unfoldable pub handle_cc_event : ℕ → ℕ → Soc → Soc
  handle_cc_event i cc s =
      let next = update_cc_timer s.now cc (rtc_of i s) in
      let matched = record next { events_compare = update next.events_compare cc 1 } in
      if (rtc_of i s).cc_timers cc == s.rtcs.timer
      then handle_event i (get_cc_event i + cc) (u32 (env.mdk.rtc_evten_compare0_msk * 2 ^ cc))
          (with_rtc i matched (check_time s))
      else s

  unfoldable pub handle_overflow_event : ℕ → Soc → Soc
  handle_overflow_event i s =
      let current_overflow_event_sub_us = (rtc_of i s).overflow_timer_sub_us in
      let overflowed = record (update_overflow_timer s.now (rtc_of i s)) { events_ovrflw = 1 } in
      let s' =
        handle_event i (get_overflow_event i) env.mdk.rtc_evten_ovrflw_msk
          (with_rtc i overflowed (check_time s)) in
      if (rtc_of i s).overflow_timer == s.rtcs.timer
      then with_rtc i
          (record (rtc_of i s') {
            start_t_sub_us = current_overflow_event_sub_us;
            start_t_negative_sub_us = 0;
          })
          s'
      else s

  -- The body of the loop of nrf_rtc_timer_triggered.
  unfoldable pub handle_rtc : ℕ → Soc → Soc
  unfolding for_range
  handle_rtc i s =
      if (rtc_of i s).running
      then handle_overflow_event i (for_range n_cc 0 (handle_cc_event i) s)
      else s

  -- The third RTC has no interrupt and is left out.
  unfoldable pub nrf_rtc_timer_triggered : Soc → Soc
  unfolding for_range handle_rtc
  nrf_rtc_timer_triggered s = update_master_timer (for_range 2 0 handle_rtc s)

  unfoldable pub nrf_rtc_notify_first_lf_tick : Soc → Soc
  nrf_rtc_notify_first_lf_tick s =
      let s' = check_time s in
      record s' {
        rtcs = record (s'.rtcs) { first_lf_tick_time_sub_us = get_hw_time_sub_us s'.now };
      }

  unfoldable pub nrf_rtc_update_counter : ℕ → Soc → Soc
  nrf_rtc_update_counter i s =
      let r = rtc_of i s in
      let count = time_sub_us_to_counter (elapsed_sub_us s.now r) r in
      if r.running
      then with_rtc i (record r { counter_reg = bit_and count rtc_counter_mask }) (check_time s)
      else with_rtc i (record r { counter_reg = bit_and r.counter rtc_counter_mask }) s

  unfoldable pub nrf_rtc_tasks_start : ℕ → Soc → Soc
  nrf_rtc_tasks_start i s =
      let r = rtc_of i s in
      if r.running
      then s
      else set_counter_to r.counter i (with_rtc i (record r { running = true }) s)

  unfoldable pub nrf_rtc_tasks_stop : ℕ → Soc → Soc
  unfolding for_range
  nrf_rtc_tasks_stop i s =
      let r = rtc_of i s in
      let off = record r {
        running = false;
        counter =
            bit_and (u32 (time_sub_us_to_counter (elapsed_sub_us s.now r) r)) rtc_counter_mask;
        cc_timers = for_range n_cc 0 (λ cc timers. update timers cc env.time_never) r.cc_timers;
        overflow_timer = env.time_never;
      } in
      if r.running then update_master_timer (with_rtc i off (check_time s)) else s

  unfoldable pub nrf_rtc_tasks_clear : ℕ → Soc → Soc
  nrf_rtc_tasks_clear i s = set_counter_to 0 i s

  unfoldable pub nrf_rtc_tasks_trigovrflw : ℕ → Soc → Soc
  nrf_rtc_tasks_trigovrflw i s = set_counter_to rtc_trigger_overflow_counter_value i s
