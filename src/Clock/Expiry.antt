-- ===== src/Clock/Expiry.antt =====
-- src/HW_models/NRF_CLOCK.c: the expiry of the timers.
use ext_nrf52_hw_models.Common.{◌*◌, ◌^◌, ◌==◌, if◌then◌else◌, bit_or, clear32, u32}
use ext_nrf52_hw_models.Soc.{Soc, stopped, started}
use ext_nrf52_hw_models.Soc.Env.{Env}
use ext_nrf52_hw_models.Irq.{trace_error}
use ext_nrf52_hw_models.Rtc.{nrf_rtc_notify_first_lf_tick}
use ext_nrf52_hw_models.Clock.Events.{
  with_clock, is_starting, is_started, is_stopping, nrf_clock_update_master_timer, nrf_clock_event,
  hfclkstarted, lfclkstarted, done, ctto,
}

module _ ⦃env : Env⦄ where
  unfoldable pub nrf_clock_lf_timer_triggered : Soc → Soc
  nrf_clock_lf_timer_triggered s =
      let c = s.clock in
      let running = record c {
        lfclkstat =
            bit_or env.mdk.clock_lfclkstat_state_msk
              (u32 (c.lfclksrccopy * 2 ^ env.mdk.clock_lfclkstat_src_pos));
      } in
      let halted = record c {
        lf_state = stopped;
        lfclkstat = clear32 c.lfclkstat env.mdk.clock_lfclkstat_state_msk;
      } in
      let s' =
        if is_starting c.lf_state
        then nrf_rtc_notify_first_lf_tick (nrf_clock_event lfclkstarted (with_clock running s))
        else if is_stopping c.lf_state
        then with_clock halted s
        else s in
      nrf_clock_update_master_timer
        (with_clock (record (s'.clock) { timer_lf = env.time_never }) s')

  unfoldable pub nrf_clock_hf_timer_triggered : Soc → Soc
  nrf_clock_hf_timer_triggered s =
      let c = s.clock in
      let running = record c {
        hf_state = started;
        hfclkstat =
            bit_or env.mdk.clock_hfclkstat_state_msk
              (u32 (env.mdk.clock_hfclkstat_src_xtal * 2 ^ env.mdk.clock_hfclkstat_src_pos));
      } in
      let s' =
        if is_starting c.hf_state
        then nrf_clock_event hfclkstarted (with_clock running s)
        else if is_stopping c.hf_state
        then with_clock (record c { hf_state = stopped; hfclkstat = 0 }) s
        else s in
      nrf_clock_update_master_timer
        (with_clock (record (s'.clock) { timer_hf = env.time_never }) s')

  unfoldable pub nrf_clock_lf_cal_triggered : Soc → Soc
  nrf_clock_lf_cal_triggered s = nrf_clock_event done (
      nrf_clock_update_master_timer
        (with_clock (record (s.clock) { lf_cal_state = stopped; timer_lf_cal = env.time_never }) s))

  unfoldable pub nrf_clock_caltimer_triggered : Soc → Soc
  nrf_clock_caltimer_triggered s =
      if is_started s.clock.caltimer_state
      then nrf_clock_event ctto (
          nrf_clock_update_master_timer (
            with_clock
              (record (s.clock) { caltimer_state = stopped; timer_caltimer = env.time_never }) s))
      else trace_error s

  unfoldable pub nrf_clock_timer_triggered : Soc → Soc
  nrf_clock_timer_triggered s =
      let c = s.clock in
      if c.timer == c.timer_hf
      then nrf_clock_hf_timer_triggered s
      else if c.timer == c.timer_lf
      then nrf_clock_lf_timer_triggered s
      else if c.timer == c.timer_lf_cal
      then nrf_clock_lf_cal_triggered s
      else if c.timer == c.timer_caltimer
      then nrf_clock_caltimer_triggered s
      else trace_error s
