-- ===== src/Examples/Setup.antt =====
-- An environment with the nRF52833's constants and callbacks that do nothing, and a system at rest.
mod Constants
mod Bench
mod Counters
mod Lines
pub use Constants.*
pub use Bench.*
pub use Counters.*
pub use Lines.*
use ext_nrf52_hw_models.Common.{ℕ, ◌+◌, ◌*◌, true, false, none, [], ◌∷◌, get_or, ◌-◌, ◌^◌}
use ext_nrf52_hw_models.Soc.{
  RadioField, pcnf0_lflen, pcnf0_s0len, pcnf0_s1len, pcnf0_s1incl, pcnf0_plen, pcnf0_crcinc,
  pcnf0_cilen, pcnf0_termlen, pcnf1_whiteen, pcnf1_endian, pcnf1_balen, pcnf1_statlen, crccnf_len,
  Radio, RadioShort, address_bcstart, address_rssistart, ccabusy_disable, ccaidle_stop,
  ccaidle_txen, disabled_rssistop, disabled_rxen, disabled_txen, edend_disable, end_disable,
  end_start, framestart_bcstart, phyend_disable, phyend_start, ready_edstart, ready_start,
  rxready_ccastart, rxready_start, txready_start, Soc, IrqCtrl, Tim, Rtc, stopped, Clock, Egu,
  flash_idle, Nvmc, Port, Gpio, GpioteChannel, Gpiote, Ppi, Aar,
}
use ext_nrf52_hw_models.Soc.Env.{Mdk, Env}

-- At the time 1000, with the scheduler in agreement.
abbrev pub rest : Soc
rest = record {
  now = 1000;
  halted = false;
  main_timer = never;
  next_timer = 0;
  notified = 0;
  fake_timer = never;
  ticker = record { timer = never; awake_cpu_asap = 0; internal = never; tick_period = never };
  irq = quiet_irq;
  rng = record {
    timer = never;
    hw_started = false;
    inten = false;
    config = 0;
    shorts = 0;
    value = 0;
    events_valrdy = 0;
    tasks_start = 0;
    tasks_stop = 0;
    intenset = 0;
    intenclr = 0;
  };
  temp = record {
    timer = never;
    hw_started = false;
    inten = false;
    reading = 0;
    events_datardy = 0;
    tasks_start = 0;
    tasks_stop = 0;
    intenset = 0;
    intenclr = 0;
  };
  nvmc = idle_nvmc;
  ecb = record {
    timer = never;
    inten = 0;
    running = false;
    t_ecb = 7;
    ecbdataptr = 0;
    events_endecb = 0;
    events_errorecb = 0;
    tasks_startecb = 0;
    tasks_stopecb = 0;
    intenset = 0;
    intenclr = 0;
  };
  clock = idle_clock;
  rtcs = record { timer = never; first_lf_tick_time_sub_us = 0; inst = λ i. idle_rtc };
  timers = record { timer = never; inst = λ i. idle_tim };
  egu = λ i. idle_egu;
  gpio = idle_gpio;
  gpiote = idle_gpiote;
  ppi = idle_ppi;
  aar = idle_aar;
  radio = idle_radio;
  ccm = idle_ccm;
  real_encryption_enabled = false;
  ram = λ address. 0;
  timer_aar = never;
  timer_gpio_input = never;
  timer_radio = never;
  timer_radio_bitcounter = never;
  timer_radio_abort_reeval = never;
}
