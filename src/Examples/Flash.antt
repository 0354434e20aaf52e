-- ===== src/Examples/Flash.antt =====
-- The flash of src/HW_models/NRF_NVMC.c at concrete states.
use ext_nrf52_hw_models.Common.{ℕ, ◌+◌, ◌/◌, ◌≡◌, ◌≢◌, refl, arith}
use ext_nrf52_hw_models.Soc.{Soc, flash_idle}
use ext_nrf52_hw_models.Nvmc.{
  nrfhw_nmvc_write_word, nrfhw_nvmc_erase_page, nrfhw_nvmc_timer_triggered,
}
use ext_nrf52_hw_models.NvmcLaws.Ready.{erasepage, run, IsReady, run-IsReady}
use ext_nrf52_hw_models.NvmcLaws.Erase.{erase_page-timer_triggered}
use ext_nrf52_hw_models.NvmcLaws.Write.{IsBelow, write_word-IsBelow}
use ext_nrf52_hw_models.Examples.Setup.{bench, rest, idle_nvmc}

rest-IsReady : IsReady ⦃env = bench⦄ idle_nvmc
rest-IsReady = record { ready = refl; readynext = refl; timer = λ idle. refl }

run-IsReady_example : IsReady ⦃env = bench⦄ (run ⦃env = bench⦄ 776 erasepage rest).nvmc
run-IsReady_example = run-IsReady ⦃env = bench⦄ 776 erasepage rest rest-IsReady

-- The address 5000 lies in the second page.
abbrev erasing : Soc
erasing = record (nrfhw_nvmc_erase_page ⦃env = bench⦄ 5000 rest) { now = 88500 }

erase_page-timer_triggered_example :
    let busy = (nrfhw_nvmc_erase_page ⦃env = bench⦄ 5000 rest).nvmc in
    let done = (nrfhw_nvmc_timer_triggered ⦃env = bench⦄ 776 erasing).nvmc in
    (busy.ready ≡ 0)
    × (busy.timer ≡ 1000 + 87500)
    × (busy.flash ≡ rest.nvmc.flash)
    × ((j : ℕ) → j / 4096 ≡ 5000 / 4096 → done.flash j ≡ 0xff)
    × ((j : ℕ) → j / 4096 ≢ 5000 / 4096 → done.flash j ≡ rest.nvmc.flash j)
    × (done.uicr ≡ rest.nvmc.uicr)
    × (done.flash_op ≡ flash_idle)
    × (done.ready ≡ 1)
erase_page-timer_triggered_example =
    erase_page-timer_triggered ⦃env = bench⦄ 776 5000 rest erasing refl refl (omega arith)
      (omega arith) refl

-- Writing is enabled.
abbrev writable : Soc
writable = record rest { nvmc = record idle_nvmc { config = 1 } }

write_word-IsBelow_example :
    let s' = nrfhw_nmvc_write_word ⦃env = bench⦄ 4096 0x1234_5678 writable in
    IsBelow s'.nvmc.flash writable.nvmc.flash × IsBelow s'.nvmc.uicr writable.nvmc.uicr
write_word-IsBelow_example = write_word-IsBelow ⦃env = bench⦄ 4096 0x1234_5678 writable
