-- ===== src/TopLaws/Dispatch.antt =====
-- nrf_hw_some_timer_reached of src/HW_models/NRF_HW_model_top.c: whatever handler runs, the scheduler is
-- left in agreement with the models' timers.
use ext_nrf52_hw_models.Common.{
  ℕ, ◌+◌, ◌-◌, ◌*◌, ◌^◌, ◌%◌, true, false, not, ◌&&◌, ◌==◌, if◌then◌else◌, if_intro, nonzero,
  bit_and, Option, none, some,
}
use ext_nrf52_hw_models.Soc.{Soc, stopped}
use ext_nrf52_hw_models.Soc.Env.{Env}
use ext_nrf52_hw_models.TopLaws.Scheduled.{IsScheduled, find_next-IsScheduled}
use ext_nrf52_hw_models.TopLaws.Handlers.{set_irq-IsScheduled, raise-IsScheduled, lower-IsScheduled}
use ext_nrf52_hw_models.Rng.{
  with_rng, nrf_rng_schedule_next, nrf_rng_task_stop, nrf_rng_timer_triggered,
}
use ext_nrf52_hw_models.Top.{nrf_hw_find_next_timer_to_trigger}
use ext_nrf52_hw_models.Irq.{hw_irq_ctrl_raise_level_irq_line, hw_irq_ctrl_lower_level_irq_line}
use ext_nrf52_hw_models.Temp.{with_temp, nrf_temp_timer_triggered}
use ext_nrf52_hw_models.Ecb.{with_ecb, end_ecb, signal_endecb, nrf_ecb_timer_triggered}
use ext_nrf52_hw_models.Aar.{
  with_aar, aar_events_end, aar_events_resolved, aar_events_notresolved, end_aar, signal_events_end,
  signal_events_resolved, signal_events_notresolved, signal_result, nrf_aar_timer_triggered,
}
use ext_nrf52_hw_models.Radio.{nrf_radio_bitcounter_timer_triggered}
use ext_nrf52_hw_models.Clock.{
  ClockEvent, clock_ppi_event, set_event, with_clock, is_started, wants_interrupt,
  nrf_clock_eval_interrupt, nrf_clock_event, nrf_clock_update_master_timer,
  nrf_clock_lf_timer_triggered, nrf_clock_hf_timer_triggered, nrf_clock_lf_cal_triggered,
  nrf_clock_caltimer_triggered, nrf_clock_timer_triggered, done, ctto,
}

-- The tasks that the events trigger leave the scheduler in agreement.
pub record KeepsScheduled (env : Env) : Type 0 where
  pub ppi : (event : ℕ) (s : Soc) → IsScheduled s → IsScheduled (env.nrf_ppi_event event s)

module _ ⦃env : Env⦄ (keeps : KeepsScheduled env) where
  pub rng-IsScheduled : (s : Soc) → IsScheduled (nrf_rng_timer_triggered s)
  unfolding nrf_rng_timer_triggered
  rng-IsScheduled s =
      let s1 = with_rng (record (s.rng) { value = env.bs_random_uint32 s % 2 ^ 32 }) s in
      let s2 =
        if nonzero (bit_and s1.rng.shorts 1)
        then nrf_rng_task_stop s1
        else nrf_rng_schedule_next false s1 in
      let s3 = env.nrf_ppi_event 58 (with_rng (record (s2.rng) { events_valrdy = 1 }) s2) in
      let h2 : IsScheduled s2 =
        if_intro IsScheduled (nonzero (bit_and s1.rng.shorts 1))
          (unfold nrf_rng_task_stop in find_next-IsScheduled _)
          (unfold nrf_rng_schedule_next in find_next-IsScheduled _) in
      let h3 : IsScheduled s3 =
        keeps.ppi 58 (with_rng (record (s2.rng) { events_valrdy = 1 }) s2) h2 in
      if_intro IsScheduled s3.rng.inten (set_irq-IsScheduled env.mdk.rng_irqn s3 h3) h3

  pub temp-IsScheduled : (s : Soc) → IsScheduled (nrf_temp_timer_triggered s)
  unfolding nrf_temp_timer_triggered
  temp-IsScheduled s =
      let s0 =
        with_temp
          (record (s.temp) {
            reading = 25 * 4 + env.bs_random_uniform_ri_plus_one s - 1;
            hw_started = false;
            timer = env.time_never;
          })
          s in
      let s1 = nrf_hw_find_next_timer_to_trigger s0 in
      let s2 = env.nrf_ppi_event 57 (with_temp (record (s1.temp) { events_datardy = 1 }) s1) in
      let h : IsScheduled s2 =
        keeps.ppi 57 (with_temp (record (s1.temp) { events_datardy = 1 }) s1)
          (find_next-IsScheduled s0) in
      if_intro IsScheduled s2.temp.inten (set_irq-IsScheduled env.mdk.temp_irqn s2 h) h

  signal_endecb-IsScheduled : (s : Soc) → IsScheduled s → IsScheduled (signal_endecb s)
  unfolding signal_endecb
  signal_endecb-IsScheduled s h =
      let s0 = with_ecb (record (s.ecb) { events_endecb = 1 }) s in
      let s1 = env.nrf_ppi_event 59 s0 in
      let h1 : IsScheduled s1 = keeps.ppi 59 s0 h in
      if_intro IsScheduled (nonzero (bit_and s1.ecb.inten env.mdk.ecb_intenset_endecb_msk))
        (set_irq-IsScheduled env.mdk.ecb_irqn s1 h1) h1

  pub ecb-IsScheduled : (s : Soc) → IsScheduled (nrf_ecb_timer_triggered s)
  unfolding nrf_ecb_timer_triggered
  ecb-IsScheduled s =
      let s1 = end_ecb s in
      let ended : IsScheduled s1 = unfold end_ecb in find_next-IsScheduled _ in
      if_intro IsScheduled (s1.ecb.ecbdataptr == 0) ended (signal_endecb-IsScheduled _ ended)

  end-IsScheduled : (s : Soc) → IsScheduled s → IsScheduled (signal_events_end s)
  unfolding signal_events_end
  end-IsScheduled s h =
      let s0 = with_aar (record (s.aar) { events_end = 1 }) s in
      let s1 = env.nrf_ppi_event aar_events_end s0 in
      let h1 : IsScheduled s1 = keeps.ppi aar_events_end s0 h in
      if_intro IsScheduled (nonzero (bit_and s1.aar.inten env.mdk.aar_intenset_end_msk))
        (set_irq-IsScheduled env.mdk.ccm_aar_irqn s1 h1) h1

  result-IsScheduled :
      (found : Option ℕ) (s : Soc) → IsScheduled s → IsScheduled (signal_result found s)
  unfolding signal_result signal_events_resolved signal_events_notresolved
  result-IsScheduled none s h =
      let s0 = with_aar (record (s.aar) { events_notresolved = 1 }) s in
      let s1 = env.nrf_ppi_event aar_events_notresolved s0 in
      let h1 : IsScheduled s1 = keeps.ppi aar_events_notresolved s0 h in
      if_intro IsScheduled (nonzero (bit_and s1.aar.inten env.mdk.aar_intenclr_notresolved_msk))
        (set_irq-IsScheduled env.mdk.ccm_aar_irqn s1 h1) h1
  result-IsScheduled (some i) s h =
      let s0 = with_aar (record (s.aar) { status = i; events_resolved = 1 }) s in
      let s1 = env.nrf_ppi_event aar_events_resolved s0 in
      let h1 : IsScheduled s1 = keeps.ppi aar_events_resolved s0 h in
      if_intro IsScheduled (nonzero (bit_and s1.aar.inten env.mdk.aar_intenclr_resolved_msk))
        (set_irq-IsScheduled env.mdk.ccm_aar_irqn s1 h1) h1

  pub aar-IsScheduled : (s : Soc) → IsScheduled (nrf_aar_timer_triggered s)
  unfolding nrf_aar_timer_triggered
  aar-IsScheduled s =
      let ended : IsScheduled (end_aar s) = unfold end_aar in find_next-IsScheduled _ in
      end-IsScheduled (signal_result (end_aar s).aar.matching_irk (end_aar s))
        (result-IsScheduled (end_aar s).aar.matching_irk (end_aar s) ended)

  pub bitcounter-IsScheduled : (s : Soc) → IsScheduled (nrf_radio_bitcounter_timer_triggered s)
  unfolding nrf_radio_bitcounter_timer_triggered
  bitcounter-IsScheduled s = find_next-IsScheduled _

  event-IsScheduled :
      (e : ClockEvent) (s : Soc)
      → IsScheduled (with_clock (set_event e s.clock) s)
      → IsScheduled (nrf_clock_event e s)
  unfolding nrf_clock_event nrf_clock_eval_interrupt
  event-IsScheduled e s h =
      let c = set_event e s.clock in
      let s0 = with_clock c s in
      let s1 =
        if not c.int_line && wants_interrupt c
        then hw_irq_ctrl_raise_level_irq_line env.mdk.power_clock_irqn
            (with_clock (record c { int_line = true }) s)
        else if c.int_line && not (wants_interrupt c)
        then hw_irq_ctrl_lower_level_irq_line env.mdk.power_clock_irqn
            (with_clock (record c { int_line = false }) s)
        else s0 in
      keeps.ppi (clock_ppi_event e) s1 (
        if_intro IsScheduled (not c.int_line && wants_interrupt c)
          (raise-IsScheduled env.mdk.power_clock_irqn (with_clock (record c { int_line = true }) s)
            h)
          (if_intro IsScheduled (c.int_line && not (wants_interrupt c))
            (lower-IsScheduled env.mdk.power_clock_irqn
              (with_clock (record c { int_line = false }) s) h)
            h))

  clock_update-IsScheduled : (s : Soc) → IsScheduled (nrf_clock_update_master_timer s)
  unfolding nrf_clock_update_master_timer
  clock_update-IsScheduled s = find_next-IsScheduled _

  hf-IsScheduled : (s : Soc) → IsScheduled (nrf_clock_hf_timer_triggered s)
  unfolding nrf_clock_hf_timer_triggered
  hf-IsScheduled s = clock_update-IsScheduled _

  lf-IsScheduled : (s : Soc) → IsScheduled (nrf_clock_lf_timer_triggered s)
  unfolding nrf_clock_lf_timer_triggered
  lf-IsScheduled s = clock_update-IsScheduled _

  lf_cal-IsScheduled : (s : Soc) → IsScheduled (nrf_clock_lf_cal_triggered s)
  unfolding nrf_clock_lf_cal_triggered
  lf_cal-IsScheduled s =
      let s0 =
        with_clock (record (s.clock) { lf_cal_state = stopped; timer_lf_cal = env.time_never }) s in
      event-IsScheduled done (nrf_clock_update_master_timer s0) (clock_update-IsScheduled s0)

  caltimer-IsScheduled : (s : Soc) → IsScheduled s → IsScheduled (nrf_clock_caltimer_triggered s)
  unfolding nrf_clock_caltimer_triggered
  caltimer-IsScheduled s h =
      let s0 =
        with_clock (record (s.clock) { caltimer_state = stopped; timer_caltimer = env.time_never })
          s in
      if_intro IsScheduled (is_started s.clock.caltimer_state)
        (event-IsScheduled ctto (nrf_clock_update_master_timer s0) (clock_update-IsScheduled s0)) h

  pub clock-IsScheduled : (s : Soc) → IsScheduled s → IsScheduled (nrf_clock_timer_triggered s)
  unfolding nrf_clock_timer_triggered
  clock-IsScheduled s h =
      let c = s.clock in
      if_intro IsScheduled (c.timer == c.timer_hf) (hf-IsScheduled s) (
        if_intro IsScheduled (c.timer == c.timer_lf) (lf-IsScheduled s) (
          if_intro IsScheduled (c.timer == c.timer_lf_cal) (lf_cal-IsScheduled s)
            (if_intro IsScheduled (c.timer == c.timer_caltimer) (caltimer-IsScheduled s h) h)))
