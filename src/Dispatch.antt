-- ===== src/Dispatch.antt =====
-- src/HW_models/NRF_HW_model_top.c: nrf_hw_some_timer_reached, the handlers by the index of their
-- timers.
use ext_nrf52_hw_models.Common.{ℕ, List, [], ◌∷◌, get_or}
use ext_nrf52_hw_models.Soc.{Soc}
use ext_nrf52_hw_models.Soc.Env.{Env}
use ext_nrf52_hw_models.Irq.{trace_error, hw_irq_ctrl_timer_triggered}
use ext_nrf52_hw_models.Ticker.{fake_timer_triggered, bst_ticker_triggered}
use ext_nrf52_hw_models.Rng.{nrf_rng_timer_triggered}
use ext_nrf52_hw_models.Temp.{nrf_temp_timer_triggered}
use ext_nrf52_hw_models.Nvmc.{nrfhw_nvmc_timer_triggered}
use ext_nrf52_hw_models.Ecb.{nrf_ecb_timer_triggered}
use ext_nrf52_hw_models.Clock.{nrf_clock_timer_triggered}
use ext_nrf52_hw_models.Aar.{nrf_aar_timer_triggered}
use ext_nrf52_hw_models.Gpio.{nrf_gpio_input_event_triggered}
use ext_nrf52_hw_models.Radio.{
  nrf_radio_timer_triggered, nrf_radio_bitcounter_timer_triggered,
  nrf_radio_timer_abort_reeval_triggered,
}
use ext_nrf52_hw_models.Rtc.{nrf_rtc_timer_triggered}
use ext_nrf52_hw_models.Timer.{nrf_hw_model_timer_timer_triggered}

module _ ⦃env : Env⦄ where
  -- The branches of the switch in the order of its index; uicr_bytes is sizeof(NRF_UICR_Type).
  abbrev pub handlers : ℕ → List (Soc → Soc)
  handlers uicr_bytes =
      fake_timer_triggered
      ∷ (λ s. bst_ticker_triggered s.main_timer s)
      ∷ hw_irq_ctrl_timer_triggered
      ∷ nrf_rng_timer_triggered
      ∷ nrf_temp_timer_triggered
      ∷ nrfhw_nvmc_timer_triggered uicr_bytes
      ∷ nrf_ecb_timer_triggered
      ∷ nrf_aar_timer_triggered
      ∷ nrf_clock_timer_triggered
      ∷ nrf_gpio_input_event_triggered
      ∷ nrf_rtc_timer_triggered
      ∷ nrf_hw_model_timer_timer_triggered
      ∷ nrf_radio_timer_triggered
      ∷ nrf_radio_bitcounter_timer_triggered
      ∷ nrf_radio_timer_abort_reeval_triggered
      ∷ []

  unfoldable pub nrf_hw_some_timer_reached : ℕ → Soc → Soc
  nrf_hw_some_timer_reached uicr_bytes s = get_or (handlers uicr_bytes) s.next_timer trace_error s
