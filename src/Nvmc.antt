-- ===== src/Nvmc.antt =====
-- src/HW_models/NRF_NVMC.c: the flash and the UICR, and the operations of their controller. Warnings
-- leave no trace in the state. A word is stored as the host stores it, low byte first.
use ext_nrf52_hw_models.Common.{
  ℕ, zero, suc, ◌+◌, ◌-◌, ◌*◌, ◌/◌, ◌%◌, ◌^◌, Bool, true, false, not, ◌&&◌, leb, ltb, ◌==◌,
  if◌then◌else◌, nonzero, bit_and, update, add64, sub64,
}
use ext_nrf52_hw_models.Soc.{
  Soc, Nvmc, FlashOp, flash_idle, flash_write, flash_erase, flash_erase_partial, flash_erase_uicr,
  flash_erase_all,
}
use ext_nrf52_hw_models.Soc.Env.{Env}
use ext_nrf52_hw_models.Top.{nrf_hw_find_next_timer_to_trigger}
use ext_nrf52_hw_models.Irq.{trace_error}

abbrev pub flash_page_size : ℕ
flash_page_size = 4096

abbrev pub flash_size : ℕ
flash_size = 524288

-- UICR_SIZE
abbrev pub uicr_size : ℕ
uicr_size = 256

abbrev pub flash_t_eraseall : ℕ
flash_t_eraseall = 173000

abbrev pub flash_t_erasepage : ℕ
flash_t_erasepage = 87500

abbrev pub flash_t_write : ℕ
flash_t_write = 42

abbrev pub is_idle : FlashOp → Bool
is_idle flash_idle = true
is_idle _ = false

abbrev pub with_nvmc : Nvmc → Soc → Soc
with_nvmc n s = record s { nvmc = n }

-- memset(&a[from], 0xFF, size)
abbrev pub set_ff : ℕ → ℕ → (ℕ → ℕ) → ℕ → ℕ
set_ff from size a j = if leb from j && ltb j (from + size) then 0xff else a j

unfoldable pub nrfhw_nvmc_complete_erase : Nvmc → Nvmc
nrfhw_nvmc_complete_erase n =
    let page = n.erase_address / flash_page_size in
    record n {
      flash = set_ff (page * flash_page_size) flash_page_size n.flash;
      time_under_erase = update n.time_under_erase page 0;
      page_erased = update n.page_erased page true;
    }

unfoldable pub nrfhw_nvmc_complete_erase_partial : Nvmc → Nvmc
nrfhw_nvmc_complete_erase_partial n =
    if leb flash_t_erasepage (n.time_under_erase (n.erase_address / flash_page_size))
    then nrfhw_nvmc_complete_erase n
    else n

unfoldable pub nrfhw_nvmc_complete_erase_uicr : ℕ → Nvmc → Nvmc
nrfhw_nvmc_complete_erase_uicr size n = record n { uicr = set_ff 0 size n.uicr }

unfoldable pub nrfhw_nvmc_complete_erase_all : ℕ → Nvmc → Nvmc
nrfhw_nvmc_complete_erase_all size n =
    let erased = nrfhw_nvmc_complete_erase_uicr size n in
    record erased {
      flash = set_ff 0 flash_size erased.flash;
      time_under_erase = λ i. if ltb i 128 then 0 else erased.time_under_erase i;
      page_erased = λ i. if ltb i 128 then true else erased.page_erased i;
    }

-- The switch of nrfhw_nvmc_timer_triggered; uicr_bytes is sizeof(NRF_UICR_Type).
unfoldable pub complete : ℕ → FlashOp → Nvmc → Nvmc
complete uicr_bytes flash_erase n = nrfhw_nvmc_complete_erase n
complete uicr_bytes flash_erase_partial n = nrfhw_nvmc_complete_erase_partial n
complete uicr_bytes flash_erase_uicr n = nrfhw_nvmc_complete_erase_uicr uicr_bytes n
complete uicr_bytes flash_erase_all n = nrfhw_nvmc_complete_erase_all uicr_bytes n
complete uicr_bytes _ n = n

unfoldable pub nrfhw_nvmc_time_to_ready : Soc → ℕ
nrfhw_nvmc_time_to_ready s = if nonzero s.nvmc.ready then 0 else sub64 s.nvmc.timer s.now

-- What each accepted operation does last: the registers, the timer and the scheduler.
unfoldable pub start_op : FlashOp → ℕ → Nvmc → Soc → Soc
start_op op duration n s = nrf_hw_find_next_timer_to_trigger (
    with_nvmc (record n { flash_op = op; ready = 0; readynext = 0; timer = add64 s.now duration })
      s)

unfoldable pub addr_in_uicr : ℕ → Nvmc → Bool
addr_in_uicr address n = leb n.uicr_base address && ltb address (n.uicr_base + uicr_size)

-- The byte of a word that goes to the offset i from the word's address.
abbrev pub byte_of : ℕ → ℕ → ℕ
byte_of value i = value / 2 ^ (8 * i) % 2 ^ 8

-- *(uint32_t*)&storage[address] &= value
unfoldable pub and_word : (ℕ → ℕ) → ℕ → ℕ → ℕ → ℕ
and_word storage address value j =
    if leb address j && ltb j (address + 4)
    then bit_and (storage j) (byte_of value (j - address))
    else storage j

-- The n bytes from an address, read as one number: *(uint32_t*)&storage[address] for four of them.
unfoldable pub load : ℕ → (ℕ → ℕ) → ℕ → ℕ
load zero storage address = 0
load (suc n) storage address = storage address + 2 ^ 8 * load n storage (address + 1)

-- nrfhw_nmvc_read_word, _halfword and _byte, with size 4, 2 and 1. The error ends the process.
unfoldable pub nrfhw_nmvc_read : ℕ → ℕ → Soc → Soc × ℕ
unfolding load
nrfhw_nmvc_read size address s =
    if ltb address flash_size
    then (s, load size s.nvmc.flash address)
    else if addr_in_uicr address s.nvmc
    then (s, load size s.nvmc.uicr (address - s.nvmc.uicr_base))
    else (trace_error s, 0)

module _ ⦃env : Env⦄ where
  -- The registers, no operation, and no time set.
  abbrev pub reset_nvmc : Nvmc → Nvmc
  reset_nvmc n = record n {
    timer = env.time_never;
    flash_op = flash_idle;
    ready = 1;
    readynext = 1;
    config = 0;
    erasepage = 0;
    erasepcr0 = 0;
    eraseuicr = 0;
    eraseall = 0;
    erasepagepartial = 0;
    erasepagepartialcfg = 10;
  }

  -- flash and uicr are what nvmc_initialize_data_storage finds in the files, and base is where it puts
  -- the UICR; the option to warn of a write to what has not been erased is off.
  unfoldable pub nrfhw_nvmc_uicr_init : (flash uicr : ℕ → ℕ) (base : ℕ) → Soc → Soc
  nrfhw_nvmc_uicr_init flash uicr base s =
      let t = nrf_hw_find_next_timer_to_trigger (with_nvmc (reset_nvmc s.nvmc) s) in
      with_nvmc
        (record (t.nvmc) {
          flash = flash;
          uicr = uicr;
          uicr_base = base;
          time_under_erase = λ i. if ltb i 128 then 0 else t.nvmc.time_under_erase i;
          page_erased = λ i. if ltb i 128 then true else t.nvmc.page_erased i;
        })
        t

  abbrev pub wen : Nvmc → ℕ
  wen n = bit_and n.config env.mdk.nvmc_config_wen_msk

  abbrev pub erase_enabled : Nvmc → Bool
  erase_enabled n = wen n == env.mdk.nvmc_config_wen_een

  abbrev pub write_enabled : Nvmc → Bool
  write_enabled n = wen n == env.mdk.nvmc_config_wen_wen

  unfoldable pub nrfhw_nvmc_timer_triggered : ℕ → Soc → Soc
  unfolding complete
  nrfhw_nvmc_timer_triggered uicr_bytes s =
      let n = complete uicr_bytes s.nvmc.flash_op s.nvmc in
      let ready = record n {
        flash_op = flash_idle;
        ready = 1;
        readynext = 1;
        timer = env.time_never;
      } in
      if is_idle s.nvmc.flash_op
      then trace_error s
      else nrf_hw_find_next_timer_to_trigger (with_nvmc ready s)

  unfoldable pub nrfhw_nvmc_erase_page : ℕ → Soc → Soc
  unfolding start_op
  nrfhw_nvmc_erase_page address s =
      if not (erase_enabled s.nvmc)
      then s
      else if not (is_idle s.nvmc.flash_op)
      then s
      else if leb flash_size address
      then trace_error s
      else start_op flash_erase flash_t_erasepage (record (s.nvmc) { erase_address = address }) s

  unfoldable pub nrfhw_nvmc_regw_sideeffects_erasepage : Soc → Soc
  nrfhw_nvmc_regw_sideeffects_erasepage s = nrfhw_nvmc_erase_page s.nvmc.erasepage s

  unfoldable pub nrf_nvmc_regw_sideeffects_erasepcr0 : Soc → Soc
  nrf_nvmc_regw_sideeffects_erasepcr0 s = nrfhw_nvmc_erase_page s.nvmc.erasepcr0 s

  unfoldable pub nrfhw_nvmc_regw_sideeffects_eraseuicr : Soc → Soc
  unfolding start_op
  nrfhw_nvmc_regw_sideeffects_eraseuicr s =
      let masked = bit_and s.nvmc.eraseuicr 1 in
      let taken = with_nvmc (record (s.nvmc) { eraseuicr = 0 }) s in
      if not (nonzero masked)
      then with_nvmc (record (s.nvmc) { eraseuicr = masked }) s
      else if not (erase_enabled taken.nvmc)
      then taken
      else if not (is_idle taken.nvmc.flash_op)
      then taken
      else start_op flash_erase_uicr flash_t_erasepage taken.nvmc taken

  unfoldable pub nrfhw_nvmc_regw_sideeffects_eraseall : Soc → Soc
  unfolding start_op
  nrfhw_nvmc_regw_sideeffects_eraseall s =
      let masked = bit_and s.nvmc.eraseall 1 in
      let taken = with_nvmc (record (s.nvmc) { eraseall = 0 }) s in
      if not (nonzero masked)
      then with_nvmc (record (s.nvmc) { eraseall = masked }) s
      else if not (erase_enabled taken.nvmc)
      then taken
      else if not (is_idle taken.nvmc.flash_op)
      then taken
      else start_op flash_erase_all flash_t_eraseall taken.nvmc taken

  -- flash_partial_erase_factor is 1.0, and the product is exact as a double.
  unfoldable pub nrfhw_nvmc_regw_sideeffects_erasepagepartial : Soc → Soc
  unfolding start_op
  nrfhw_nvmc_regw_sideeffects_erasepagepartial s =
      let n = s.nvmc in
      let address = n.erasepagepartial in
      let page = address / flash_page_size in
      let duration = n.erasepagepartialcfg * 1000 in
      let longer = update n.time_under_erase page (add64 (n.time_under_erase page) duration) in
      let counted = record n {
        erase_address = address;
        time_under_erase = if n.page_erased page then n.time_under_erase else longer;
      } in
      if not (erase_enabled n)
      then s
      else if not (is_idle n.flash_op)
      then s
      else if leb flash_size address
      then trace_error s
      else start_op flash_erase_partial duration counted s

  unfoldable pub nrfhw_nmvc_write_word : ℕ → ℕ → Soc → Soc
  unfolding start_op addr_in_uicr
  nrfhw_nmvc_write_word address value s =
      let n = s.nvmc in
      let flashed = record n {
        page_erased = update n.page_erased (address / flash_page_size) false;
        flash = and_word n.flash address value;
      } in
      let configured = record n { uicr = and_word n.uicr (address - n.uicr_base) value } in
      if not (is_idle n.flash_op)
      then s
      else if not (address % 4 == 0)
      then trace_error s
      else if not (write_enabled n)
      then s
      else if ltb address flash_size
      then start_op flash_write flash_t_write flashed s
      else if addr_in_uicr address n
      then start_op flash_write flash_t_write configured s
      else trace_error s
