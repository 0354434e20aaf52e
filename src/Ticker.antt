-- ===== src/Ticker.antt =====
-- src/HW_models/bstest_ticker.c and src/HW_models/fake_timer.c: the timer of the tests, and the timer
-- that wakes the processor from a busy wait.
use ext_nrf52_hw_models.Common.{ℕ, if◌then◌else◌, ltb, ◌==◌, add64}
use ext_nrf52_hw_models.Soc.{Soc, Ticker}
use ext_nrf52_hw_models.Soc.Env.{Env}
use ext_nrf52_hw_models.Top.{nrf_hw_find_next_timer_to_trigger}
use ext_nrf52_hw_models.Irq.{hw_irq_ctrl_set_irq, hw_irq_ctrl_raise_im, phony_hard_irq}

abbrev pub with_ticker : Ticker → Soc → Soc
with_ticker t s = record s { ticker = t }

unfoldable pub bst_ticker_find_next_time : Soc → Soc
bst_ticker_find_next_time s =
    let next = if s.ticker.awake_cpu_asap == 1 then s.now else s.ticker.internal in
    nrf_hw_find_next_timer_to_trigger (with_ticker (record (s.ticker) { timer = next }) s)

unfoldable pub bst_ticker_set_period : ℕ → Soc → Soc
bst_ticker_set_period tick_period s = bst_ticker_find_next_time (
    with_ticker
      (record (s.ticker) { tick_period = tick_period; internal = add64 tick_period s.now }) s)

unfoldable pub bst_ticker_set_next_tick_delta : ℕ → Soc → Soc
bst_ticker_set_next_tick_delta delta_time s =
    bst_ticker_find_next_time
      (with_ticker (record (s.ticker) { internal = add64 delta_time s.now }) s)

unfoldable pub bst_awake_cpu_asap : Soc → Soc
bst_awake_cpu_asap s =
    bst_ticker_find_next_time (with_ticker (record (s.ticker) { awake_cpu_asap = 1 }) s)

unfoldable pub fake_timer_wake_in_time : ℕ → Soc → Soc
fake_timer_wake_in_time time s =
    if ltb time s.fake_timer
    then nrf_hw_find_next_timer_to_trigger (record s { fake_timer = time })
    else s

module _ ⦃env : Env⦄ where
  unfoldable pub bst_ticker_set_next_tick_absolute : ℕ → Soc → Soc
  bst_ticker_set_next_tick_absolute absolute_time s =
      bst_ticker_find_next_time
        (with_ticker (record (s.ticker) { internal = env.tm_abs_time_to_hw_time absolute_time }) s)

  unfoldable pub bst_ticker_triggered : ℕ → Soc → Soc
  bst_ticker_triggered hw_time s =
      let next =
        if s.ticker.tick_period == env.time_never
        then env.time_never
        else add64 s.ticker.tick_period hw_time in
      let s1 =
        if s.ticker.awake_cpu_asap == 1
        then hw_irq_ctrl_raise_im phony_hard_irq
            (with_ticker (record (s.ticker) { awake_cpu_asap = 0 }) s)
        else env.bst_tick hw_time (with_ticker (record (s.ticker) { internal = next }) s) in
      bst_ticker_find_next_time s1

  unfoldable pub fake_timer_init : Soc → Soc
  fake_timer_init s = record s { fake_timer = env.time_never }

  unfoldable pub fake_timer_triggered : Soc → Soc
  fake_timer_triggered s =
      hw_irq_ctrl_set_irq phony_hard_irq
        (nrf_hw_find_next_timer_to_trigger (record s { fake_timer = env.time_never }))
