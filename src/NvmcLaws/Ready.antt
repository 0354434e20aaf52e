-- ===== src/NvmcLaws/Ready.antt =====
-- The READY register of src/HW_models/NRF_NVMC.c against the operation that is under way.
use ext_nrf52_hw_models.Common.{
  ℕ, ◌-◌, ◌*◌, ◌/◌, ◌%◌, ◌≡◌, refl, true, false, not, leb, ltb, ◌==◌, if◌then◌else◌, if_intro,
  nonzero, bit_and, add64, update, arith,
}
use ext_nrf52_hw_models.Soc.{
  Soc, Nvmc, FlashOp, flash_write, flash_erase, flash_erase_partial, flash_erase_uicr,
  flash_erase_all,
}
use ext_nrf52_hw_models.Soc.Env.{Env}
use ext_nrf52_hw_models.TopLaws.Scheduled.{IsApart, find_next-apart}
use ext_nrf52_hw_models.Nvmc.{
  is_idle, with_nvmc, start_op, addr_in_uicr, and_word, erase_enabled, write_enabled,
  nrfhw_nvmc_timer_triggered, nrfhw_nvmc_erase_page, nrfhw_nvmc_regw_sideeffects_erasepage,
  nrf_nvmc_regw_sideeffects_erasepcr0, nrfhw_nvmc_regw_sideeffects_eraseuicr,
  nrfhw_nvmc_regw_sideeffects_eraseall, nrfhw_nvmc_regw_sideeffects_erasepagepartial,
  nrfhw_nmvc_write_word, flash_page_size, flash_size, flash_t_erasepage, flash_t_eraseall,
  flash_t_write,
}

pub nvmc-IsApart : IsApart (λ (s : Soc). s.nvmc)
nvmc-IsApart = record { apart = λ s c m n k h. refl }

abbrev pub started : FlashOp → ℕ → Nvmc → Soc → Nvmc
started op duration n s = record n {
  flash_op = op;
  ready = 0;
  readynext = 0;
  timer = add64 s.now duration;
}

pub start_op-started :
    (op : FlashOp) (duration : ℕ) (n : Nvmc) (s : Soc)
    → (start_op op duration n s).nvmc ≡ started op duration n s
unfolding start_op
start_op-started op duration n s =
    find_next-apart (λ (t : Soc). t.nvmc) nvmc-IsApart (with_nvmc (started op duration n s) s)

-- The operations, and the software's writes to the registers before them.
pub data NvmcCall : Type 0 where
  store : ℕ → ℕ → ℕ → ℕ → ℕ → ℕ → ℕ → NvmcCall
  erasepage erasepcr0 eraseuicr eraseall erasepagepartial timer_reached : NvmcCall
  write_word : ℕ → ℕ → NvmcCall

module _ ⦃env : Env⦄ where
  abbrev pub run : ℕ → NvmcCall → Soc → Soc
  run uicr_bytes (store config page pcr0 uicr all partial cfg) s =
      with_nvmc
        (record (s.nvmc) {
          config = config;
          erasepage = page;
          erasepcr0 = pcr0;
          eraseuicr = uicr;
          eraseall = all;
          erasepagepartial = partial;
          erasepagepartialcfg = cfg;
        })
        s
  run uicr_bytes erasepage s = nrfhw_nvmc_regw_sideeffects_erasepage s
  run uicr_bytes erasepcr0 s = nrf_nvmc_regw_sideeffects_erasepcr0 s
  run uicr_bytes eraseuicr s = nrfhw_nvmc_regw_sideeffects_eraseuicr s
  run uicr_bytes eraseall s = nrfhw_nvmc_regw_sideeffects_eraseall s
  run uicr_bytes erasepagepartial s = nrfhw_nvmc_regw_sideeffects_erasepagepartial s
  run uicr_bytes timer_reached s = nrfhw_nvmc_timer_triggered uicr_bytes s
  run uicr_bytes (write_word address value) s = nrfhw_nmvc_write_word address value s

  -- READY and READYNEXT are 1 while no operation is under way, and then no time is set; they are 0 during
  -- an operation.
  pub record IsReady (n : Nvmc) : Type 0 where
    pub ready : n.ready ≡ (if is_idle n.flash_op then 1 else 0)
    pub readynext : n.readynext ≡ (if is_idle n.flash_op then 1 else 0)
    pub timer : is_idle n.flash_op ≡ true → n.timer ≡ env.time_never

  start_op-IsReady :
      (op : FlashOp) (duration : ℕ) (n : Nvmc) (s : Soc)
      → is_idle op ≡ false
      → IsReady (start_op op duration n s).nvmc
  start_op-IsReady op duration n s busy = rw (start_op-started op duration n s) (record {
    ready = rw busy refl;
    readynext = rw busy refl;
    timer = λ idle. absurd (ground arith);
  })

  abbrev IsReadySoc : Soc → Type 0
  IsReadySoc s = IsReady s.nvmc

  erase_page-IsReady :
      (address : ℕ) (s : Soc) → IsReadySoc s → IsReadySoc (nrfhw_nvmc_erase_page address s)
  unfolding nrfhw_nvmc_erase_page
  erase_page-IsReady address s h = if_intro IsReadySoc (not (erase_enabled s.nvmc)) h (
      if_intro IsReadySoc (not (is_idle s.nvmc.flash_op)) h (
        if_intro IsReadySoc (leb flash_size address) h (
          start_op-IsReady flash_erase flash_t_erasepage
            (record (s.nvmc) { erase_address = address }) s refl)))

  eraseuicr-IsReady :
      (s : Soc) → IsReadySoc s → IsReadySoc (nrfhw_nvmc_regw_sideeffects_eraseuicr s)
  unfolding nrfhw_nvmc_regw_sideeffects_eraseuicr
  eraseuicr-IsReady s h =
      let same : (v : ℕ) → IsReady (record (s.nvmc) { eraseuicr = v }) =
        λ v. record { ready = h.ready; readynext = h.readynext; timer = h.timer } in
      if_intro IsReadySoc (not (nonzero (bit_and s.nvmc.eraseuicr 1))) (same _) (
        if_intro IsReadySoc (not (erase_enabled s.nvmc)) (same 0) (
          if_intro IsReadySoc (not (is_idle s.nvmc.flash_op)) (same 0) (
            start_op-IsReady flash_erase_uicr flash_t_erasepage (record (s.nvmc) { eraseuicr = 0 })
              (with_nvmc (record (s.nvmc) { eraseuicr = 0 }) s) refl)))

  eraseall-IsReady : (s : Soc) → IsReadySoc s → IsReadySoc (nrfhw_nvmc_regw_sideeffects_eraseall s)
  unfolding nrfhw_nvmc_regw_sideeffects_eraseall
  eraseall-IsReady s h =
      let same : (v : ℕ) → IsReady (record (s.nvmc) { eraseall = v }) =
        λ v. record { ready = h.ready; readynext = h.readynext; timer = h.timer } in
      if_intro IsReadySoc (not (nonzero (bit_and s.nvmc.eraseall 1))) (same _) (
        if_intro IsReadySoc (not (erase_enabled s.nvmc)) (same 0) (
          if_intro IsReadySoc (not (is_idle s.nvmc.flash_op)) (same 0) (
            start_op-IsReady flash_erase_all flash_t_eraseall (record (s.nvmc) { eraseall = 0 })
              (with_nvmc (record (s.nvmc) { eraseall = 0 }) s) refl)))

  erasepagepartial-IsReady :
      (s : Soc) → IsReadySoc s → IsReadySoc (nrfhw_nvmc_regw_sideeffects_erasepagepartial s)
  unfolding nrfhw_nvmc_regw_sideeffects_erasepagepartial
  erasepagepartial-IsReady s h =
      let n = s.nvmc in
      let address = n.erasepagepartial in
      let page = address / flash_page_size in
      let duration = n.erasepagepartialcfg * 1000 in
      let longer = update n.time_under_erase page (add64 (n.time_under_erase page) duration) in
      let counted = record n {
        erase_address = address;
        time_under_erase = if n.page_erased page then n.time_under_erase else longer;
      } in
      if_intro IsReadySoc (not (erase_enabled s.nvmc)) h (
        if_intro IsReadySoc (not (is_idle s.nvmc.flash_op)) h (
          if_intro IsReadySoc (leb flash_size s.nvmc.erasepagepartial) h
            (start_op-IsReady flash_erase_partial duration counted s refl)))

  write_word-IsReady :
      (address value : ℕ) (s : Soc)
      → IsReadySoc s
      → IsReadySoc (nrfhw_nmvc_write_word address value s)
  unfolding nrfhw_nmvc_write_word
  write_word-IsReady address value s h =
      let n = s.nvmc in
      let flashed = record n {
        page_erased = update n.page_erased (address / flash_page_size) false;
        flash = and_word n.flash address value;
      } in
      let configured = record n { uicr = and_word n.uicr (address - n.uicr_base) value } in
      if_intro IsReadySoc (not (is_idle s.nvmc.flash_op)) h (
        if_intro IsReadySoc (not (address % 4 == 0)) h (
          if_intro IsReadySoc (not (write_enabled s.nvmc)) h (
            if_intro IsReadySoc (ltb address flash_size)
              (start_op-IsReady flash_write flash_t_write flashed s refl)
              (if_intro IsReadySoc (addr_in_uicr address s.nvmc)
                (start_op-IsReady flash_write flash_t_write configured s refl) h))))

  timer_triggered-IsReady :
      (uicr_bytes : ℕ) (s : Soc)
      → IsReadySoc s
      → IsReadySoc (nrfhw_nvmc_timer_triggered uicr_bytes s)
  unfolding nrfhw_nvmc_timer_triggered
  timer_triggered-IsReady uicr_bytes s h = if_intro IsReadySoc (is_idle s.nvmc.flash_op) h (
      rw (find_next-apart (λ (t : Soc). t.nvmc) nvmc-IsApart)
        (record { ready = refl; readynext = refl; timer = λ idle. refl }))

  -- Every operation of the controller, and every write of software to its registers, keeps READY and
  -- READYNEXT at 1 while the flash is idle, with no time set, and at 0 while it is busy.
  pub run-IsReady :
      (uicr_bytes : ℕ) (call : NvmcCall) (s : Soc)
      → IsReady s.nvmc
      → IsReady (run uicr_bytes call s).nvmc
  run-IsReady uicr_bytes (store config page pcr0 uicr all partial cfg) s h = record {
    ready = h.ready;
    readynext = h.readynext;
    timer = h.timer;
  }
  run-IsReady uicr_bytes erasepage s h =
      unfold nrfhw_nvmc_regw_sideeffects_erasepage in erase_page-IsReady s.nvmc.erasepage s h
  run-IsReady uicr_bytes erasepcr0 s h =
      unfold nrf_nvmc_regw_sideeffects_erasepcr0 in erase_page-IsReady s.nvmc.erasepcr0 s h
  run-IsReady uicr_bytes eraseuicr s h = eraseuicr-IsReady s h
  run-IsReady uicr_bytes eraseall s h = eraseall-IsReady s h
  run-IsReady uicr_bytes erasepagepartial s h = erasepagepartial-IsReady s h
  run-IsReady uicr_bytes timer_reached s h = timer_triggered-IsReady uicr_bytes s h
  run-IsReady uicr_bytes (write_word address value) s h = write_word-IsReady address value s h
