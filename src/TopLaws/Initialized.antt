-- ===== src/TopLaws/Initialized.antt =====
-- nrf_hw_initialize of src/HW_models/NRF_HW_model_top.c: the state in which the models begin.
use ext_nrf52_hw_models.Common.{ℕ, ◌<◌, ◌≡◌, ◌^◌, refl, sym, ◌∙◌, ap, ltb, arith, ==_refl, if_intro}
use ext_nrf52_hw_models.Soc.{Soc, Clock, Radio, IrqCtrl}
use ext_nrf52_hw_models.Soc.Env.{Env}
use ext_nrf52_hw_models.Top.{nrf_hw_find_next_timer_to_trigger}
use ext_nrf52_hw_models.Common.Bits.{bit-zero}
use ext_nrf52_hw_models.Irq.{hw_irq_ctrl_init, nrf_hw_nbr_irqs}
use ext_nrf52_hw_models.Timer.{nrf_hw_model_timer_init}
use ext_nrf52_hw_models.Clock.{nrf_clock_init, bs_min}
use ext_nrf52_hw_models.Ticker.{fake_timer_init}
use ext_nrf52_hw_models.Aar.{nrf_aar_init}
use ext_nrf52_hw_models.Radio.{nrf_radio_init, radio_reset, nrf_radio_bitcounter_reset}
use ext_nrf52_hw_models.Gpio.{nrf_gpio_init}
use ext_nrf52_hw_models.Egu.{nrf_egu_init}
use ext_nrf52_hw_models.Blecrypt.{blecrypt_if_enable_real_encryption}
use ext_nrf52_hw_models.Nvmc.{nrfhw_nvmc_uicr_init, with_nvmc, reset_nvmc}
use ext_nrf52_hw_models.Initialize.{Setting, nrf_hw_initialize, initialize_first, initialize_rest}
use ext_nrf52_hw_models.TopLaws.Scheduled.{
  IsApart, IsScheduled, find_next-IsScheduled, find_next-apart, find_next-irq,
}
use ext_nrf52_hw_models.IrqLaws.Pending.{IsPending}
use ext_nrf52_hw_models.ClockLaws.Pending.{IsWell}
use ext_nrf52_hw_models.NvmcLaws.Ready.{IsReady}
use ext_nrf52_hw_models.RadioLaws.Shown.Base.{IsShown, shown}

-- What the invariants read.
abbrev parts : Soc → Radio × Clock
parts s = (s.radio, s.clock)

parts-IsApart : IsApart parts
parts-IsApart = record { apart = λ s c m n k h. refl }

nvmc-IsApart : IsApart (λ (s : Soc). s.nvmc)
nvmc-IsApart = record { apart = λ s c m n k h. refl }

module _ ⦃env : Env⦄ where
  nvmc_init-parts :
      (flash uicr : ℕ → ℕ) (base : ℕ) (s : Soc)
      → parts (nrfhw_nvmc_uicr_init flash uicr base s) ≡ parts s
  unfolding nrfhw_nvmc_uicr_init
  nvmc_init-parts flash uicr base s = find_next-apart parts parts-IsApart _

  nvmc_init-IsReady :
      (flash uicr : ℕ → ℕ) (base : ℕ) (s : Soc)
      → IsReady (nrfhw_nvmc_uicr_init flash uicr base s).nvmc
  unfolding nrfhw_nvmc_uicr_init
  nvmc_init-IsReady flash uicr base s =
      let e =
        find_next-apart (λ (t : Soc). t.nvmc) nvmc-IsApart (with_nvmc (reset_nvmc s.nvmc) s) in
      rw e (record { ready = refl; readynext = refl; timer = λ idle. refl })

  nvmc_init-irq :
      (flash uicr : ℕ → ℕ) (base : ℕ) (s : Soc)
      → (nrfhw_nvmc_uicr_init flash uicr base s).irq ≡ s.irq
  unfolding nrfhw_nvmc_uicr_init
  nvmc_init-irq flash uicr base s = find_next-irq _

  first-IsShown : (s : Soc) → IsShown (initialize_rest (initialize_first s))
  unfolding nrf_egu_init nrf_gpio_init nrf_radio_init radio_reset nrf_radio_bitcounter_reset
  first-IsShown s = refl

  clock_init-IsWell : (c : Clock) → c.timer ≡ env.time_never → IsWell (nrf_clock_init c)
  unfolding nrf_clock_init
  clock_init-IsWell c never =
      let least : bs_min (bs_min env.time_never env.time_never)
            (bs_min env.time_never env.time_never)
          ≡ env.time_never =
        ground arith in
      let same = ==_refl env.time_never in
      ((rw same refl, rw same refl, rw same refl), never ∙ sym least)

  first-clock :
      (s : Soc)
      → s.clock.timer ≡ env.time_never
      → IsWell (initialize_rest (initialize_first s)).clock
  unfolding nrf_egu_init nrf_gpio_init nrf_radio_init radio_reset nrf_radio_bitcounter_reset
      nrf_aar_init fake_timer_init
  first-clock s never = clock_init-IsWell s.clock never

  irq_init-IsPending :
      (c : IrqCtrl)
      → c.irq_lines < 2 ^ 64
      → c.irq_status ≡ 0
      → ((i : ℕ) → c.irq_prio i < 256)
      → IsPending (hw_irq_ctrl_init c)
  unfolding hw_irq_ctrl_init
  irq_init-IsPending c lines status prio = record {
    lines_fit = lines;
    status_fits = rw status (omega arith);
    premask_fits = omega arith;
    mask_fits = omega arith;
    prio_fits = λ i. if_intro (λ p. p < 256) (ltb i nrf_hw_nbr_irqs) (omega arith) (prio i);
    pended = λ i set. let clear = bit-zero i in absurd (ground (arith, status, clear, set));
    delivered = λ i set enabled. let clear = bit-zero i in absurd (ground (arith, clear, set));
  }

  first-irq :
      (s : Soc)
      → s.irq.irq_lines < 2 ^ 64
      → s.irq.irq_status ≡ 0
      → ((i : ℕ) → s.irq.irq_prio i < 256)
      → IsPending (initialize_rest (initialize_first s)).irq
  unfolding nrf_egu_init nrf_gpio_init nrf_radio_init radio_reset nrf_radio_bitcounter_reset
      nrf_aar_init fake_timer_init
  first-irq s lines status prio = irq_init-IsPending s.irq lines status prio

  -- All the invariants that the components have.
  pub record IsInitialized (s : Soc) : Type 0 where
    pub scheduled : IsScheduled s
    pub shown : IsShown s
    pub ready : IsReady s.nvmc
    pub well : IsWell s.clock
    pub pending : IsPending s.irq

  -- From the values with which the program starts (no timer of the clocks, no interrupt delivered, and lines
  -- and priorities that fit their words), nrf_hw_initialize establishes the components' invariants together:
  -- the scheduler agrees with all the timers, STATE shows the state of the radio, the flash is ready and
  -- has no time set, the clocks' timers agree with their states, and the interrupt controller is consistent.
  pub initialize-IsInitialized :
      (setting : Setting) (s : Soc)
      → s.clock.timer ≡ env.time_never
      → s.irq.irq_lines < 2 ^ 64
      → s.irq.irq_status ≡ 0
      → ((i : ℕ) → s.irq.irq_prio i < 256)
      → IsInitialized (nrf_hw_initialize setting s)
  unfolding nrf_hw_initialize blecrypt_if_enable_real_encryption
  initialize-IsInitialized setting s never lines status prio =
      let ciphered =
        blecrypt_if_enable_real_encryption setting.use_real_aes setting.library_found s in
      let t = initialize_rest (initialize_first ciphered) in
      let u = nrfhw_nvmc_uicr_init setting.flash setting.uicr setting.base t in
      let v = record u { timers = nrf_hw_model_timer_init u.timers } in
      let e : parts (nrf_hw_find_next_timer_to_trigger v) ≡ parts t =
        find_next-apart parts parts-IsApart v
        ∙ nvmc_init-parts setting.flash setting.uicr setting.base t in
      let irq : (nrf_hw_find_next_timer_to_trigger v).irq ≡ t.irq =
        find_next-irq v ∙ nvmc_init-irq setting.flash setting.uicr setting.base t in
      record {
        scheduled = find_next-IsScheduled v;
        shown =
            ap (λ p. p.0.state) e
            ∙ first-IsShown ciphered
            ∙ sym (ap (λ p. shown p.0.fsm.radio_state) e);
        ready =
            rw (find_next-apart (λ (x : Soc). x.nvmc) nvmc-IsApart v)
              (nvmc_init-IsReady setting.flash setting.uicr setting.base t);
        well = rw (ap (λ p. p.1) e) (first-clock ciphered never);
        pending = rw irq (first-irq ciphered lines status prio);
      }
