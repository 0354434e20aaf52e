-- ===== src/Clock/Events.antt =====
-- src/HW_models/NRF_CLOCK.c: the events, the interrupt line and the earliest timer.
use ext_nrf52_hw_models.Common.{
  ℕ, Bool, true, false, not, ◌&&◌, ◌||◌, ltb, if◌then◌else◌, nonzero, bit_and,
}
use ext_nrf52_hw_models.Soc.{Soc, Clock, ClockState, stopped, starting, started, stopping}
use ext_nrf52_hw_models.Soc.Env.{Env}
use ext_nrf52_hw_models.Top.{nrf_hw_find_next_timer_to_trigger}
use ext_nrf52_hw_models.Irq.{hw_irq_ctrl_raise_level_irq_line, hw_irq_ctrl_lower_level_irq_line}

abbrev pub with_clock : Clock → Soc → Soc
with_clock c s = record s { clock = c }

abbrev pub is_stopped : ClockState → Bool
is_stopped stopped = true
is_stopped _ = false

abbrev pub is_starting : ClockState → Bool
is_starting starting = true
is_starting _ = false

abbrev pub is_started : ClockState → Bool
is_started started = true
is_started _ = false

abbrev pub is_stopping : ClockState → Bool
is_stopping stopping = true
is_stopping _ = false

-- BS_MIN
abbrev pub bs_min : ℕ → ℕ → ℕ
bs_min a b = if ltb a b then a else b

unfoldable pub nrf_clock_update_master_timer : Soc → Soc
nrf_clock_update_master_timer s =
    let c = s.clock in
    let t1 = bs_min c.timer_hf c.timer_lf in
    let t2 = bs_min c.timer_lf_cal c.timer_caltimer in
    nrf_hw_find_next_timer_to_trigger (with_clock (record c { timer = bs_min t1 t2 }) s)

-- The events, and the six instances of nrf_clock_event_handler.
pub data ClockEvent : Type 0 where
  hfclkstarted lfclkstarted done ctto ctstarted ctstopped : ClockEvent

-- The tasks, with their places in Clock.tasks.
pub data ClockTask : Type 0 where
  lfclkstart lfclkstop hfclkstart hfclkstop cal ctstart ctstop : ClockTask

abbrev pub task_index : ClockTask → ℕ
task_index lfclkstart = 0
task_index lfclkstop = 1
task_index hfclkstart = 2
task_index hfclkstop = 3
task_index cal = 4
task_index ctstart = 5
task_index ctstop = 6

-- CLOCK_EVENTS_* of NRF_PPI.h.
abbrev pub clock_ppi_event : ClockEvent → ℕ
clock_ppi_event hfclkstarted = 0
clock_ppi_event lfclkstarted = 1
clock_ppi_event done = 2
clock_ppi_event ctto = 3
clock_ppi_event ctstarted = 4
clock_ppi_event ctstopped = 5

abbrev pub set_event : ClockEvent → Clock → Clock
set_event hfclkstarted c = record c { ev_hfclkstarted = 1 }
set_event lfclkstarted c = record c { ev_lfclkstarted = 1 }
set_event done c = record c { ev_done = 1 }
set_event ctto c = record c { ev_ctto = 1 }
set_event ctstarted c = record c { ev_ctstarted = 1 }
set_event ctstopped c = record c { ev_ctstopped = 1 }

module _ ⦃env : Env⦄ where
  unfoldable pub nrf_clock_init : Clock → Clock
  nrf_clock_init c = record c {
    hf_state = stopped;
    lf_state = stopped;
    lf_cal_state = stopped;
    caltimer_state = stopped;
    timer_lf = env.time_never;
    timer_hf = env.time_never;
    timer_lf_cal = env.time_never;
    timer_caltimer = env.time_never;
    intenset = 0;
    intenclr = 0;
    ctiv = 0;
    hfclkrun = 0;
    hfclkstat = 0;
    lfclkrun = 0;
    lfclkstat = 0;
    lfclksrc = 0;
    lfclksrccopy = 0;
    hfxodebounce = 0x10;
    ev_hfclkstarted = 0;
    ev_lfclkstarted = 0;
    ev_done = 0;
    ev_ctto = 0;
    ev_ctstarted = 0;
    ev_ctstopped = 0;
    tasks = λ i. 0;
  }

  -- The six check_interrupt of nrf_clock_eval_interrupt.
  unfoldable pub wants_interrupt : Clock → Bool
  wants_interrupt c =
      nonzero c.ev_hfclkstarted && nonzero (bit_and c.inten env.mdk.clock_inten_hfclkstarted_msk)
      || nonzero c.ev_lfclkstarted && nonzero (bit_and c.inten env.mdk.clock_inten_lfclkstarted_msk)
      || nonzero c.ev_done && nonzero (bit_and c.inten env.mdk.clock_inten_done_msk)
      || nonzero c.ev_ctto && nonzero (bit_and c.inten env.mdk.clock_inten_ctto_msk)
      || nonzero c.ev_ctstarted && nonzero (bit_and c.inten env.mdk.clock_inten_ctstarted_msk)
      || nonzero c.ev_ctstopped && nonzero (bit_and c.inten env.mdk.clock_inten_ctstopped_msk)

  unfoldable pub nrf_clock_eval_interrupt : Soc → Soc
  nrf_clock_eval_interrupt s =
      let c = s.clock in
      let new_int_line = wants_interrupt c in
      if not c.int_line && new_int_line
      then hw_irq_ctrl_raise_level_irq_line env.mdk.power_clock_irqn
          (with_clock (record c { int_line = true }) s)
      else if c.int_line && not new_int_line
      then hw_irq_ctrl_lower_level_irq_line env.mdk.power_clock_irqn
          (with_clock (record c { int_line = false }) s)
      else s

  unfoldable pub nrf_clock_event : ClockEvent → Soc → Soc
  nrf_clock_event e s =
      env.nrf_ppi_event (clock_ppi_event e)
        (nrf_clock_eval_interrupt (with_clock (set_event e s.clock) s))
