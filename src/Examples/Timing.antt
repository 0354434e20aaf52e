-- ===== src/Examples/Timing.antt =====
-- The timers of src/HW_models/NRF_TIMER.c at concrete states.
use ext_nrf52_hw_models.Common.{
  ◌-◌, bit_and, ◌+◌, ◌/◌, ◌%◌, ◌^◌, ◌≡◌, refl, true, false, ◌==◌, if◌then◌else◌, arith, update,
}
use ext_nrf52_hw_models.Soc.{Soc, Tim, Timers}
use ext_nrf52_hw_models.Timer.{
  tim, with_tim, time_to_counter, mask_from_bitmode, update_cc_timer, earliest_match,
  nrf_timer_task_start, nrf_timer_task_stop, n_timers,
}
use ext_nrf52_hw_models.TimerLaws.Match.{IsNextStepTo, update_cc_timer-IsNextStepTo}
use ext_nrf52_hw_models.TimerLaws.Earliest.{IsLeastMatch, earliest_match-IsLeastMatch}
use ext_nrf52_hw_models.TimerLaws.Counter.{task_start-task_stop}
use ext_nrf52_hw_models.Examples.Setup.{bench, never, rest, idle_tim}

-- Running since 100 at a microsecond a count, to match at 500 counts.
abbrev running_tim : Tim
running_tim = record idle_tim { running = true; start_t = 100; cc = update idle_tim.cc 1 500 }

-- The match at 600 has passed: the next is a wrap of the 16-bit counter later.
update_cc_timer-IsNextStepTo_example :
    let r = (update_cc_timer ⦃env = bench⦄ 1000 1 running_tim).cc_timers 1 in
    IsNextStepTo 100 1 65536 500 1000 r
    × (bit_and (time_to_counter (r - 100) running_tim) (mask_from_bitmode running_tim) ≡ 500)
update_cc_timer-IsNextStepTo_example =
    update_cc_timer-IsNextStepTo ⦃env = bench⦄ 1000 1 0 running_tim refl refl (omega arith)
      (omega arith) (omega arith) (omega arith)

abbrev two_running : Timers
two_running = record { timer = never; inst = λ t. if t == 0 then running_tim else idle_tim }

earliest_match-IsLeastMatch_example :
    IsLeastMatch two_running never n_timers (earliest_match ⦃env = bench⦄ two_running)
earliest_match-IsLeastMatch_example = earliest_match-IsLeastMatch ⦃env = bench⦄ two_running

-- Stopped at the count 7, and 40 microseconds after it has been started.
abbrev at_7 : Soc
at_7 = with_tim 0 (record idle_tim { counter = 7 }) rest

abbrev after_40 : Soc
after_40 = record (nrf_timer_task_start ⦃env = bench⦄ 0 at_7) { now = 1040 }

task_start-task_stop_example :
    ((tim 0 (nrf_timer_task_stop ⦃env = bench⦄ 0 after_40)).counter ≡ (7 + 40 / 2 ^ 0) % 2 ^ 32)
    × ((tim 0 (nrf_timer_task_stop ⦃env = bench⦄ 0 after_40)).running ≡ false)
task_start-task_stop_example =
    task_start-task_stop ⦃env = bench⦄ 0 40 0 at_7 after_40 refl refl refl (omega arith)
      (omega arith) refl refl
