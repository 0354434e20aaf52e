-- ===== src/NvmcLaws/Erase.antt =====
-- A page erase of src/HW_models/NRF_NVMC.c from its request to its end.
use ext_nrf52_hw_models.Common.{ℕ, ◌+◌, ◌/◌, ◌<◌, ◌≡◌, ◌≢◌, refl, ◌∙◌, ap, true, false, leb, arith}
use ext_nrf52_hw_models.Soc.{Soc, Nvmc, flash_idle, flash_erase}
use ext_nrf52_hw_models.Soc.Env.{Env}
use ext_nrf52_hw_models.TopLaws.Scheduled.{find_next-apart}
use ext_nrf52_hw_models.Nvmc.{
  is_idle, complete, nrfhw_nvmc_complete_erase, erase_enabled, nrfhw_nvmc_timer_triggered,
  nrfhw_nvmc_erase_page, flash_size, flash_t_erasepage,
}
use ext_nrf52_hw_models.NvmcLaws.Ready.{started, start_op-started, nvmc-IsApart}

module _ ⦃env : Env⦄ where
  erase_page-started :
      (address : ℕ) (s : Soc)
      → erase_enabled s.nvmc ≡ true
      → is_idle s.nvmc.flash_op ≡ true
      → address < flash_size
      → (nrfhw_nvmc_erase_page address s).nvmc
        ≡ started flash_erase flash_t_erasepage (record (s.nvmc) { erase_address = address }) s
  unfolding nrfhw_nvmc_erase_page
  erase_page-started address s enabled idle real =
      let inside : leb flash_size address ≡ false = ground arith in
      rw (enabled, idle, inside)
        (start_op-started flash_erase flash_t_erasepage
          (record (s.nvmc) { erase_address = address }) s)

  timer_triggered-erased :
      (uicr_bytes : ℕ) (s : Soc)
      → s.nvmc.flash_op ≡ flash_erase
      → (nrfhw_nvmc_timer_triggered uicr_bytes s).nvmc ≡ record (nrfhw_nvmc_complete_erase s.nvmc) {
        flash_op = flash_idle;
        ready = 1;
        readynext = 1;
        timer = env.time_never;
      }
  unfolding nrfhw_nvmc_timer_triggered complete
  timer_triggered-erased uicr_bytes s busy =
      rw busy (find_next-apart (λ (t : Soc). t.nvmc) nvmc-IsApart _)

  -- With erasing enabled and the flash idle, the request of a page erase at an address of the flash makes
  -- it busy until 87500 microseconds later, with its content as it was; and when the timer comes, in
  -- whatever state has that same NVMC, the bytes of the page are 0xFF, every other byte of the flash and
  -- the UICR are as they were, and the flash is idle again.
  pub erase_page-timer_triggered :
      (uicr_bytes address : ℕ) (s later : Soc)
      → erase_enabled s.nvmc ≡ true
      → is_idle s.nvmc.flash_op ≡ true
      → address < flash_size
      → s.now + flash_t_erasepage < 18446744073709551616
      → later.nvmc ≡ (nrfhw_nvmc_erase_page address s).nvmc
      → let busy = (nrfhw_nvmc_erase_page address s).nvmc in
        let done = (nrfhw_nvmc_timer_triggered uicr_bytes later).nvmc in
        (busy.ready ≡ 0)
        × (busy.timer ≡ s.now + 87500)
        × (busy.flash ≡ s.nvmc.flash)
        × ((j : ℕ) → j / 4096 ≡ address / 4096 → done.flash j ≡ 0xff)
        × ((j : ℕ) → j / 4096 ≢ address / 4096 → done.flash j ≡ s.nvmc.flash j)
        × (done.uicr ≡ s.nvmc.uicr)
        × (done.flash_op ≡ flash_idle)
        × (done.ready ≡ 1)
  unfolding nrfhw_nvmc_complete_erase
  erase_page-timer_triggered uicr_bytes address s later enabled idle real fits same =
      let start = erase_page-started address s enabled idle real in
      let running : later.nvmc.flash_op ≡ flash_erase =
        ap (λ (n : Nvmc). n.flash_op) (same ∙ start) in
      let final =
        timer_triggered-erased uicr_bytes later running
        ∙ ap
            (λ (n : Nvmc). record (nrfhw_nvmc_complete_erase n) {
              flash_op = flash_idle;
              ready = 1;
              readynext = 1;
              timer = env.time_never;
            })
            (same ∙ start) in
      rw (start, final)
        (
          refl,
          omega arith,
          refl,
          λ j inside. ground arith,
          λ j outside. ground arith,
          refl,
          refl,
          refl,
        )
