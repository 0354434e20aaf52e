-- ===== src/Examples/Scheduler.antt =====
-- The choice of the next timer in src/HW_models/NRF_HW_model_top.c at concrete states.
use ext_nrf52_hw_models.Common.{◌+◌, ◌≡◌, ◌≢◌, ◌⊎◌, refl, true, false, arith}
use ext_nrf52_hw_models.Soc.{Soc}
use ext_nrf52_hw_models.Top.{timers, choose, nrf_hw_find_next_timer_to_trigger}
use ext_nrf52_hw_models.TopLaws.Choose.{IsFirstMin, timer_at, find_next-IsFirstMin}
use ext_nrf52_hw_models.TopLaws.Scheduled.{IsScheduled}
use ext_nrf52_hw_models.TopLaws.Dispatch.{KeepsScheduled}
use ext_nrf52_hw_models.TopLaws.Reached.{some_timer_reached-IsScheduled}
use ext_nrf52_hw_models.TopLaws.Initialized.{IsInitialized, initialize-IsInitialized}
use ext_nrf52_hw_models.Initialize.{Setting, nrf_hw_initialize}
use ext_nrf52_hw_models.Dispatch.{nrf_hw_some_timer_reached}
use ext_nrf52_hw_models.Examples.Setup.{bench, rest}

-- The random numbers are due first.
abbrev number_due : Soc
number_due = record rest { rng = record (rest.rng) { timer = 1200 } }

find_next-IsFirstMin_example :
    let s' = nrf_hw_find_next_timer_to_trigger number_due in
    IsFirstMin
      (timer_at number_due)
      15
      (record { new_timer = s'.main_timer; index = s'.next_timer })
    × (timers s' ≡ timers number_due)
    × ((s'.notified ≡ number_due.notified) × (s'.main_timer ≡ number_due.main_timer)
        ⊎ (s'.notified ≡ number_due.notified + 1) × (s'.main_timer ≢ number_due.main_timer))
find_next-IsFirstMin_example = find_next-IsFirstMin number_due

bench-KeepsScheduled : KeepsScheduled bench
bench-KeepsScheduled = record { ppi = λ event s h. h }

-- Scheduled, with the random number generator next.
abbrev number_next : Soc
number_next = record number_due { now = 1200; main_timer = 1200; next_timer = 3 }

number_next-IsScheduled : IsScheduled number_next
unfolding choose
number_next-IsScheduled = (refl, refl)

some_timer_reached-IsScheduled_example :
    IsScheduled (nrf_hw_some_timer_reached ⦃env = bench⦄ 776 number_next)
some_timer_reached-IsScheduled_example =
    some_timer_reached-IsScheduled ⦃env = bench⦄ bench-KeepsScheduled 776 number_next refl
      number_next-IsScheduled

-- A flash that has been erased, and no library for the cipher that is asked for.
abbrev fresh : Setting
fresh = record {
  use_real_aes = true;
  library_found = false;
  flash = λ address. 0xff;
  uicr = λ address. 0xff;
  base = 0x10001000;
}

initialize-IsInitialized_example :
    IsInitialized ⦃env = bench⦄ (nrf_hw_initialize ⦃env = bench⦄ fresh number_due)
initialize-IsInitialized_example =
    initialize-IsInitialized ⦃env = bench⦄ fresh number_due refl (omega arith) refl
      (λ i. omega arith)
