-- ===== src/Examples/Setup/Counters.antt =====
-- The interrupt controller, the timers, the clocks and the flash, out of reset.
use ext_nrf52_hw_models.Common.{true, false}
use ext_nrf52_hw_models.Soc.{IrqCtrl, Tim, Rtc, stopped, Clock, Egu, flash_idle, Nvmc}
use ext_nrf52_hw_models.Examples.Setup.Bench.{never}

abbrev pub quiet_irq : IrqCtrl
quiet_irq = record {
  timer = never;
  irq_lines = 0;
  irq_status = 0;
  irq_premask = 0;
  irq_mask = 0;
  irqs_locked = false;
  lock_ignore = false;
  irq_prio = λ i. 255;
  currently_running_prio = 256;
}

abbrev pub idle_tim : Tim
idle_tim = record {
  prescaler = 4;
  bitmode = 0;
  mode = 0;
  shorts = 0;
  intenset = 0;
  intenclr = 0;
  cc = λ i. 0;
  events_compare = λ i. 0;
  tasks_start = 0;
  tasks_stop = 0;
  tasks_shutdown = 0;
  tasks_clear = 0;
  tasks_count = 0;
  tasks_capture = λ i. 0;
  inten = 0;
  running = false;
  start_t = never;
  counter = 0;
  cc_timers = λ i. never;
  int_line = false;
}

abbrev pub idle_rtc : Rtc
idle_rtc = record {
  prescaler = 0;
  counter_reg = 0;
  cc = λ i. 0;
  events_compare = λ i. 0;
  events_ovrflw = 0;
  evten = 0;
  evtenset = 0;
  evtenclr = 0;
  intenset = 0;
  intenclr = 0;
  tasks_start = 0;
  tasks_stop = 0;
  tasks_clear = 0;
  tasks_trigovrflw = 0;
  running = false;
  inten = 0;
  cc_timers = λ i. never;
  overflow_timer = never;
  overflow_timer_sub_us = 0;
  start_t_sub_us = 0;
  start_t_negative_sub_us = 0;
  counter = 0;
}

abbrev pub idle_clock : Clock
idle_clock = record {
  timer = never;
  timer_lf = never;
  timer_hf = never;
  timer_lf_cal = never;
  timer_caltimer = never;
  hf_state = stopped;
  lf_state = stopped;
  lf_cal_state = stopped;
  caltimer_state = stopped;
  int_line = false;
  inten = 0;
  intenset = 0;
  intenclr = 0;
  ctiv = 0;
  hfclkrun = 0;
  hfclkstat = 0;
  lfclkrun = 0;
  lfclkstat = 0;
  lfclksrc = 0;
  lfclksrccopy = 0;
  hfxodebounce = 16;
  ev_hfclkstarted = 0;
  ev_lfclkstarted = 0;
  ev_done = 0;
  ev_ctto = 0;
  ev_ctstarted = 0;
  ev_ctstopped = 0;
  tasks = λ i. 0;
}

abbrev pub idle_egu : Egu
idle_egu = record {
  int_line = false;
  inten = 0;
  intenset = 0;
  intenclr = 0;
  events_triggered = λ i. 0;
  tasks_trigger = λ i. 0;
}

-- The flash erased, and erasing enabled.
abbrev pub idle_nvmc : Nvmc
idle_nvmc = record {
  timer = never;
  flash_op = flash_idle;
  ready = 1;
  readynext = 1;
  config = 2;
  erasepage = 0;
  erasepcr0 = 0;
  eraseuicr = 0;
  eraseall = 0;
  erasepagepartial = 0;
  erasepagepartialcfg = 10;
  erase_address = 0;
  time_under_erase = λ i. 0;
  page_erased = λ i. true;
  flash = λ i. 0xff;
  uicr = λ i. 0xff;
  uicr_base = 0x10001000;
}
