-- ===== src/Initialize.antt =====
-- src/HW_models/NRF_HW_model_top.c: nrf_hw_initialize.
use ext_nrf52_hw_models.Common.{ℕ, Bool}
use ext_nrf52_hw_models.Soc.{Soc}
use ext_nrf52_hw_models.Soc.Env.{Env}
use ext_nrf52_hw_models.Top.{nrf_hw_find_next_timer_to_trigger}
use ext_nrf52_hw_models.Blecrypt.{blecrypt_if_enable_real_encryption}
use ext_nrf52_hw_models.Ticker.{fake_timer_init}
use ext_nrf52_hw_models.Irq.{hw_irq_ctrl_init}
use ext_nrf52_hw_models.Clock.{nrf_clock_init}
use ext_nrf52_hw_models.Rng.{nrf_rng_init}
use ext_nrf52_hw_models.Temp.{nrf_temp_init}
use ext_nrf52_hw_models.Rtc.{nrf_rtc_init}
use ext_nrf52_hw_models.Ecb.{nrf_aes_ecb_init}
use ext_nrf52_hw_models.Ccm.{nrf_aes_ccm_init}
use ext_nrf52_hw_models.Aar.{nrf_aar_init}
use ext_nrf52_hw_models.Radio.{nrf_radio_init}
use ext_nrf52_hw_models.Gpio.{nrf_gpio_init}
use ext_nrf52_hw_models.Gpiote.Tasks.{nrf_gpiote_init}
use ext_nrf52_hw_models.Ppi.{nrf_ppi_init}
use ext_nrf52_hw_models.Egu.{nrf_egu_init}
use ext_nrf52_hw_models.Nvmc.{nrfhw_nvmc_uicr_init}
use ext_nrf52_hw_models.Timer.{nrf_hw_model_timer_init}

-- What the command line and the files say: the real cipher is asked for, its library is found, and the
-- contents of the flash and of the UICR, which stands at base.
pub record Setting : Type 0 where
  pub use_real_aes : Bool
  pub library_found : Bool
  pub flash : ℕ → ℕ
  pub uicr : ℕ → ℕ
  pub base : ℕ

module _ ⦃env : Env⦄ where
  -- From fake_timer_init to nrf_aes_ccm_init, each of which is about its own variables.
  abbrev pub initialize_first : Soc → Soc
  initialize_first s =
      let t = fake_timer_init s in
      record t {
        irq = hw_irq_ctrl_init t.irq;
        clock = nrf_clock_init t.clock;
        rng = nrf_rng_init t.rng;
        temp = nrf_temp_init t.temp;
        rtcs = nrf_rtc_init t.rtcs;
        ecb = nrf_aes_ecb_init t.ecb;
        ccm = nrf_aes_ccm_init t.ccm;
      }

  -- From nrf_aar_init to nrf_egu_init. The FICR has no variable that a model reads.
  abbrev pub initialize_rest : Soc → Soc
  initialize_rest s =
      let t = nrf_gpio_init (nrf_radio_init (nrf_aar_init s)) in
      nrf_egu_init (record t { gpiote = nrf_gpiote_init t.gpiote; ppi = nrf_ppi_init t.ppi })

  unfoldable pub nrf_hw_initialize : Setting → Soc → Soc
  nrf_hw_initialize setting s =
      let ciphered =
        blecrypt_if_enable_real_encryption setting.use_real_aes setting.library_found s in
      let t =
        nrfhw_nvmc_uicr_init setting.flash setting.uicr setting.base
          (initialize_rest (initialize_first ciphered)) in
      nrf_hw_find_next_timer_to_trigger (record t { timers = nrf_hw_model_timer_init t.timers })
