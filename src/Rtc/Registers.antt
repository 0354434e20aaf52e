-- ===== src/Rtc/Registers.antt =====
-- src/HW_models/NRF_RTC.c: the effects of writes to the registers, and the initial state.
use ext_nrf52_hw_models.Common.{
  ℕ, ◌*◌, ◌^◌, false, ◌&&◌, ◌==◌, if◌then◌else◌, nonzero, bit_and, bit_or, clear32, u32, for_range,
  ltb,
}
use ext_nrf52_hw_models.Soc.{Soc, Rtc, Rtcs}
use ext_nrf52_hw_models.Soc.Env.{Env}
use ext_nrf52_hw_models.Irq.{hw_irq_ctrl_set_irq, trace_error}
use ext_nrf52_hw_models.Rtc.Count.{n_rtc, n_cc, update_cc_timer, update_master_timer}
use ext_nrf52_hw_models.Rtc.Tasks.{
  rtc_of, with_rtc, check_time, nrf_rtc_tasks_start, nrf_rtc_tasks_stop, nrf_rtc_tasks_clear,
  nrf_rtc_tasks_trigovrflw,
}

module _ ⦃env : Env⦄ where
  unfoldable pub init_rtc : Rtc → Rtc
  init_rtc r = record r {
    prescaler = 0;
    counter_reg = 0;
    cc = λ i. 0;
    events_compare = λ i. 0;
    events_ovrflw = 0;
    evten = 0;
    evtenset = 0;
    evtenclr = 0;
    intenset = 0;
    intenclr = 0;
    tasks_start = 0;
    tasks_stop = 0;
    tasks_clear = 0;
    tasks_trigovrflw = 0;
    running = false;
    inten = 0;
    counter = 0;
    start_t_sub_us = env.time_never;
    start_t_negative_sub_us = 0;
    cc_timers = λ j. if ltb j n_cc then env.time_never else r.cc_timers j;
    overflow_timer = env.time_never;
    overflow_timer_sub_us = env.time_never;
  }

  unfoldable pub nrf_rtc_init : Rtcs → Rtcs
  unfolding init_rtc
  nrf_rtc_init rs = record rs {
    timer = env.time_never;
    inst = λ i. if ltb i n_rtc then init_rtc (rs.inst i) else rs.inst i;
  }

  unfoldable pub nrf_rtc_regw_sideeffect_tasks_start : ℕ → Soc → Soc
  nrf_rtc_regw_sideeffect_tasks_start i s =
      if nonzero (rtc_of i s).tasks_start
      then nrf_rtc_tasks_start i (with_rtc i (record (rtc_of i s) { tasks_start = 0 }) s)
      else s

  unfoldable pub nrf_rtc_regw_sideeffect_tasks_stop : ℕ → Soc → Soc
  nrf_rtc_regw_sideeffect_tasks_stop i s =
      if nonzero (rtc_of i s).tasks_stop
      then nrf_rtc_tasks_stop i (with_rtc i (record (rtc_of i s) { tasks_stop = 0 }) s)
      else s

  unfoldable pub nrf_rtc_regw_sideeffect_tasks_clear : ℕ → Soc → Soc
  nrf_rtc_regw_sideeffect_tasks_clear i s =
      if nonzero (rtc_of i s).tasks_clear
      then nrf_rtc_tasks_clear i (with_rtc i (record (rtc_of i s) { tasks_clear = 0 }) s)
      else s

  unfoldable pub nrf_rtc_regw_sideeffect_tasks_trigovrflw : ℕ → Soc → Soc
  nrf_rtc_regw_sideeffect_tasks_trigovrflw i s =
      if nonzero (rtc_of i s).tasks_trigovrflw
      then nrf_rtc_tasks_trigovrflw i (with_rtc i (record (rtc_of i s) { tasks_trigovrflw = 0 }) s)
      else s

  -- get_irq_t comes first, so RTC2 ends in the error before anything is written.
  unfoldable pub nrf_rtc_regw_sideeffect_intenset : ℕ → Soc → Soc
  unfolding for_range
  nrf_rtc_regw_sideeffect_intenset i s =
      let r = rtc_of i s in
      let new_interrupts = clear32 r.intenset r.inten in
      let inten = bit_or r.inten r.intenset in
      let set = record r { inten = inten; intenset = inten } in
      let raise = λ (cc : ℕ) (s' : Soc).
        if nonzero ((rtc_of i s').events_compare cc)
          && nonzero (bit_and new_interrupts (u32 (env.mdk.rtc_evten_compare0_msk * 2 ^ cc)))
        then hw_irq_ctrl_set_irq (env.mdk.rtc_irqn i) s'
        else s' in
      if nonzero r.intenset
      then if i == 2 then trace_error s else for_range n_cc 0 raise (with_rtc i set s)
      else s

  unfoldable pub nrf_rtc_regw_sideeffect_intenclr : ℕ → Soc → Soc
  nrf_rtc_regw_sideeffect_intenclr i s =
      let r = rtc_of i s in
      let inten = clear32 r.inten r.intenclr in
      if nonzero r.intenclr
      then with_rtc i (record r { inten = inten; intenset = inten; intenclr = 0 }) s
      else s

  unfoldable pub nrf_rtc_regw_sideeffect_evtenset : ℕ → Soc → Soc
  nrf_rtc_regw_sideeffect_evtenset i s =
      let r = rtc_of i s in
      let evten = bit_or r.evten r.evtenset in
      if nonzero r.evtenset then with_rtc i (record r { evten = evten; evtenset = evten }) s else s

  unfoldable pub nrf_rtc_regw_sideeffect_evtenclr : ℕ → Soc → Soc
  nrf_rtc_regw_sideeffect_evtenclr i s =
      let r = rtc_of i s in
      let evten = clear32 r.evten r.evtenclr in
      if nonzero r.evtenclr
      then with_rtc i (record r { evten = evten; evtenset = evten; evtenclr = 0 }) s
      else s

  unfoldable pub nrf_rtc_regw_sideeffects_cc : ℕ → ℕ → Soc → Soc
  nrf_rtc_regw_sideeffects_cc i cc_n s =
      let r = rtc_of i s in
      if r.running
      then update_master_timer (with_rtc i (update_cc_timer s.now cc_n r) (check_time s))
      else s

  unfoldable pub nrf_rtc_regw_sideeffects : ℕ → Soc → Soc
  nrf_rtc_regw_sideeffects i s = nrf_rtc_regw_sideeffect_evtenclr i (
      nrf_rtc_regw_sideeffect_evtenset i (
        nrf_rtc_regw_sideeffect_intenclr i (
          nrf_rtc_regw_sideeffect_intenset i (
            nrf_rtc_regw_sideeffect_tasks_trigovrflw i (
              nrf_rtc_regw_sideeffect_tasks_clear i (
                nrf_rtc_regw_sideeffect_tasks_stop i (nrf_rtc_regw_sideeffect_tasks_start i s)))))))
