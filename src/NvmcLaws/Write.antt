-- ===== src/NvmcLaws/Write.antt =====
-- A word write of src/HW_models/NRF_NVMC.c.
use ext_nrf52_hw_models.Common.{
  ℕ, ◌+◌, ◌-◌, ◌/◌, ◌%◌, ◌≡◌, true, false, not, ◌&&◌, leb, ltb, ◌==◌, if_intro, update, arith,
}
use ext_nrf52_hw_models.Common.Bits.{bit, bit-and}
use ext_nrf52_hw_models.Soc.{Soc, Nvmc, flash_write}
use ext_nrf52_hw_models.Soc.Env.{Env}
use ext_nrf52_hw_models.Nvmc.{
  is_idle, start_op, addr_in_uicr, and_word, byte_of, write_enabled, nrfhw_nmvc_write_word,
  flash_size, flash_page_size, flash_t_write,
}
use ext_nrf52_hw_models.NvmcLaws.Ready.{start_op-started}

-- No bit of one array is set that is not set in the other.
abbrev pub IsBelow : (ℕ → ℕ) → (ℕ → ℕ) → Type 0
IsBelow a b = (j i : ℕ) → bit (a j) i ≡ true → bit (b j) i ≡ true

and_word-IsBelow :
    (storage : ℕ → ℕ) (address value : ℕ) → IsBelow (and_word storage address value) storage
unfolding and_word
and_word-IsBelow storage address value j i =
    if_intro (λ (x : ℕ). bit x i ≡ true → bit (storage j) i ≡ true)
      (leb address j && ltb j (address + 4))
      (λ set. ground (arith, bit-and i (storage j) (byte_of value (j - address)))) (λ set. set)

start_op-IsBelow :
    (n : Nvmc) (s old : Soc)
    → IsBelow n.flash old.nvmc.flash
    → IsBelow n.uicr old.nvmc.uicr
    → IsBelow (start_op flash_write flash_t_write n s).nvmc.flash old.nvmc.flash
      × IsBelow (start_op flash_write flash_t_write n s).nvmc.uicr old.nvmc.uicr
start_op-IsBelow n s old f u = rw (start_op-started flash_write flash_t_write n s) (f, u)

module _ ⦃env : Env⦄ where
  abbrev IsLess : Soc → Soc → Type 0
  IsLess s' s = IsBelow s'.nvmc.flash s.nvmc.flash × IsBelow s'.nvmc.uicr s.nvmc.uicr

  -- On every branch of nrfhw_nmvc_write_word, errors included, no bit of the flash or the UICR is set
  -- that was clear.
  pub write_word-IsBelow :
      (address value : ℕ) (s : Soc)
      → let s' = nrfhw_nmvc_write_word address value s in
        IsBelow s'.nvmc.flash s.nvmc.flash × IsBelow s'.nvmc.uicr s.nvmc.uicr
  unfolding nrfhw_nmvc_write_word
  write_word-IsBelow address value s =
      let n = s.nvmc in
      let flashed = record n {
        page_erased = update n.page_erased (address / flash_page_size) false;
        flash = and_word n.flash address value;
      } in
      let configured = record n { uicr = and_word n.uicr (address - n.uicr_base) value } in
      let P : Soc → Type 0 = λ s'. IsLess s' s in
      let same : IsLess s s = (λ j i set. set, λ j i set. set) in
      if_intro P (not (is_idle s.nvmc.flash_op)) same (
        if_intro P (not (address % 4 == 0)) same (
          if_intro P (not (write_enabled s.nvmc)) same (
            if_intro P (ltb address flash_size)
              (start_op-IsBelow flashed s s (and_word-IsBelow s.nvmc.flash address value) same.1)
              (if_intro P (addr_in_uicr address s.nvmc)
                (start_op-IsBelow configured s s same.0
                  (and_word-IsBelow s.nvmc.uicr (address - s.nvmc.uicr_base) value))
                same))))
