-- ===== src/Examples/Oscillators.antt =====
-- A system whose HF clock is about to start.
use ext_nrf52_hw_models.Common.{◌≡◌, refl, true, update, arith, ◌*◌, ◌+◌, ◌%◌, ◌^◌, ◌≤◌}
use ext_nrf52_hw_models.Soc.{Soc, started}
use ext_nrf52_hw_models.Soc.Env.{Env}
use ext_nrf52_hw_models.Ppi.{ppi_env}
use ext_nrf52_hw_models.PpiLaws.Idle.{ppi_env-IgnoresUnheard}
use ext_nrf52_hw_models.Examples.Setup.{bench, never, rest, idle_clock, idle_rtc}
use ext_nrf52_hw_models.Clock.{
  hfclkstart, nrf_clock_reqw_sideeffects_tasks, nrf_clock_timer_triggered,
  nrf_clock_tasks_hfclkstart,
}
use ext_nrf52_hw_models.Rtc.{
  rtc_of, time_fits, sub_us_time_to_us_time, get_last_lf_tick_time_sub_us, get_hw_time_sub_us,
  us_time_to_sub_us_time, set_counter_to, nrf_rtc_update_counter,
}
use ext_nrf52_hw_models.RtcLaws.Counter.{set_counter_to-update_counter}
use ext_nrf52_hw_models.ClockLaws.Pending.{IsWell, tasks-IsWell}
use ext_nrf52_hw_models.ClockLaws.Expiry.{timers, timer_triggered-IsWell, hfclkstart-started}

-- The bench with the PPI of the program, whose channels are all off.
abbrev wired_bench : Env
wired_bench = ppi_env 1 bench

-- TASKS_HFCLKSTART is written.
abbrev requested : Soc
requested = record rest { clock = record idle_clock { tasks = update (λ i. 0) 2 1 } }

idle-IsWell : IsWell ⦃env = bench⦄ requested.clock
idle-IsWell = ((refl, refl, refl), refl)

tasks-IsWell_example :
    IsWell ⦃env = wired_bench⦄
      (nrf_clock_reqw_sideeffects_tasks ⦃env = wired_bench⦄ hfclkstart requested).clock
unfolding ppi_env
tasks-IsWell_example =
    tasks-IsWell ⦃env = wired_bench⦄ (ppi_env-IgnoresUnheard 0 bench) hfclkstart requested
      (omega arith) (omega arith) (refl, refl) idle-IsWell

abbrev calibrating : Soc
calibrating = record rest {
  clock = record idle_clock { timer = 1000; timer_lf_cal = 1000; lf_cal_state = started };
}

timer_triggered-IsWell_example :
    let c = (nrf_clock_timer_triggered ⦃env = wired_bench⦄ calibrating).clock in
    IsWell ⦃env = wired_bench⦄ c × (timers c ≡ (never, (never, (never, never))))
unfolding ppi_env
timer_triggered-IsWell_example =
    timer_triggered-IsWell ⦃env = wired_bench⦄ (ppi_env-IgnoresUnheard 0 bench) calibrating
      ((refl, refl, refl), refl) ((refl, refl), (refl, refl)) (λ same. omega arith)

hfclkstart-started_example :
    let s' = nrf_clock_tasks_hfclkstart ⦃env = wired_bench⦄ requested in
    let c = (nrf_clock_timer_triggered ⦃env = wired_bench⦄ s').clock in
    (s'.clock.timer ≡ 1000)
    × (c.hf_state ≡ started)
    × (c.ev_hfclkstarted ≡ 1)
    × (c.timer_hf ≡ never)
unfolding ppi_env
hfclkstart-started_example =
    hfclkstart-started ⦃env = wired_bench⦄ (ppi_env-IgnoresUnheard 0 bench) requested refl refl
      (omega arith, omega arith, omega arith)

-- RTC1 runs at a prescaler of 0.
abbrev running_rtcs : Soc
running_rtcs = record rest {
  rtcs = record (rest.rtcs) { inst = λ i. record idle_rtc { running = true } };
}

fits : time_fits ⦃env = bench⦄ running_rtcs.now ≡ true
unfolding time_fits sub_us_time_to_us_time
fits = refl

past : get_last_lf_tick_time_sub_us 1000 0 ≤ 1100 * 2 ^ 9
unfolding get_last_lf_tick_time_sub_us get_hw_time_sub_us us_time_to_sub_us_time
past = omega arith

-- Four counts have passed from the last tick before 1000 to 1100.
set_counter_to-update_counter_example :
    let s' = record (set_counter_to ⦃env = bench⦄ 100 1 running_rtcs) { now = 1100 } in
    (rtc_of 1 (nrf_rtc_update_counter ⦃env = bench⦄ 1 s')).counter_reg ≡ (100 + 4) % 2 ^ 24
unfolding get_last_lf_tick_time_sub_us get_hw_time_sub_us us_time_to_sub_us_time
set_counter_to-update_counter_example =
    set_counter_to-update_counter ⦃env = bench⦄ 100 1 1100 running_rtcs refl (omega arith) fits
      (omega arith) past
