-- ===== src/Examples/Ramps.antt =====
-- A radio that is turned on, and one that is turned off while it transmits.
use ext_nrf52_hw_models.Common.{◌≡◌, refl, add64}
use ext_nrf52_hw_models.Soc.{Soc, txen, rad_tx}
use ext_nrf52_hw_models.Soc.Env.{Env}
use ext_nrf52_hw_models.Ppi.{ppi_env}
use ext_nrf52_hw_models.PpiLaws.Idle.{ppi_env-IgnoresUnheard}
use ext_nrf52_hw_models.Examples.Setup.{bench, rest}
use ext_nrf52_hw_models.Radio.{
  enter, nrf_radio_task, nrf_radio_init, nrf_radio_timer_triggered, nrf_radio_tasks_disable,
}
use ext_nrf52_hw_models.RadioLaws.Disable.{
  RampsDown, transmitter, receiver, ramp_down_time, disable-RampsDown,
}
use ext_nrf52_hw_models.RadioLaws.Ready.{enable, ramp_up_time, IsReady, enable-IsReady}
use ext_nrf52_hw_models.RadioLaws.Shown.Base.{IsShown, KeepsShown}
use ext_nrf52_hw_models.RadioLaws.Shown.Steps.{init, next, task, timer, Reached-IsShown}

-- The bench leaves the radio alone.
bench-KeepsShown : KeepsShown ⦃env = bench⦄
bench-KeepsShown = record { ppi = λ e s h. h; sync = λ t s h. h }

abbrev ramping : Soc
ramping = nrf_radio_task ⦃env = bench⦄ txen (nrf_radio_init ⦃env = bench⦄ rest)

Reached-IsShown_example : IsShown (nrf_radio_timer_triggered ⦃env = bench⦄ ramping)
Reached-IsShown_example =
    Reached-IsShown ⦃env = bench⦄ bench-KeepsShown (nrf_radio_timer_triggered ⦃env = bench⦄ ramping)
      (next ramping _
        (next (nrf_radio_init ⦃env = bench⦄ rest) ramping (init rest)
          (task txen (nrf_radio_init ⦃env = bench⦄ rest)))
        (timer ramping))

abbrev transmitting : Soc
transmitting = enter rad_tx rest

disable-RampsDown_example :
    RampsDown ⦃env = bench⦄ transmitter
      (add64 1000 (ramp_down_time ⦃env = bench⦄ transmitter transmitting.radio))
      (nrf_radio_tasks_disable ⦃env = bench⦄ transmitting)
disable-RampsDown_example = disable-RampsDown ⦃env = bench⦄ transmitter transmitting refl

-- The bench with the PPI of the program, whose channels are all off.
abbrev wired_bench : Env
wired_bench = ppi_env 1 bench

-- The ramp-up of the receiver from DISABLED.
enable-IsReady_example :
    ((enable ⦃env = wired_bench⦄ receiver rest).timer_radio
      ≡ add64 1000 (ramp_up_time ⦃env = wired_bench⦄ receiver rest.radio))
    × IsReady ⦃env = wired_bench⦄ receiver rest.radio.events (
        nrf_radio_timer_triggered ⦃env = wired_bench⦄
          (record (enable ⦃env = wired_bench⦄ receiver rest) { now = 1040 }))
enable-IsReady_example =
    enable-IsReady ⦃env = wired_bench⦄ (ppi_env-IgnoresUnheard 0 bench) receiver rest 1040 refl refl
      (refl, refl)
