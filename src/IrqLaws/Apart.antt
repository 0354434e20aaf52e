-- ===== src/IrqLaws/Apart.antt =====
-- What the calls of src/HW_models/irq_ctrl.c from the other models leave as it is.
use ext_nrf52_hw_models.Common.{
  ℕ, ◌^◌, ◌<◌, false, arith, ◌≡◌, refl, ◌∙◌, true, not, ◌||◌, leb, if_intro, nonzero, bit_and,
  bit_or, clear64,
}
use ext_nrf52_hw_models.Common.Bits.{bit}
use ext_nrf52_hw_models.Common.Clear.{bit-clear_one}
use ext_nrf52_hw_models.Soc.{Soc}
use ext_nrf52_hw_models.TopLaws.Scheduled.{IsApart, find_next-apart}
use ext_nrf52_hw_models.Irq.{
  hw_irq_ctrl_irq_raise_prefix, hw_irq_ctrl_set_irq, hw_irq_ctrl_raise_level_irq_line,
  hw_irq_ctrl_lower_level_irq_line,
}

module _ {ℓ} {A : Type ℓ} (f : Soc → A) (h : IsApart f) where
  pub set_irq-apart : (irq : ℕ) (s : Soc) → f (hw_irq_ctrl_set_irq irq s) ≡ f s
  unfolding hw_irq_ctrl_set_irq
  set_irq-apart irq s =
      let c = hw_irq_ctrl_irq_raise_prefix irq s.irq in
      if_intro (λ (t : Soc). f t ≡ f s) (not c.irqs_locked || c.lock_ignore)
        (find_next-apart f h (record s { irq = record c { timer = s.now } })
          ∙ h.apart s (record c { timer = s.now }) s.main_timer s.next_timer s.notified s.halted)
        (h.apart s c s.main_timer s.next_timer s.notified s.halted)

  pub raise-apart : (irq : ℕ) (s : Soc) → f (hw_irq_ctrl_raise_level_irq_line irq s) ≡ f s
  unfolding hw_irq_ctrl_raise_level_irq_line
  raise-apart irq s =
      let c = record (s.irq) { irq_lines = bit_or s.irq.irq_lines (2 ^ irq) } in
      if_intro (λ (t : Soc). f t ≡ f s) (leb 47 irq)
        (h.apart s s.irq s.main_timer s.next_timer s.notified true)
        (if_intro (λ (t : Soc). f t ≡ f s) (nonzero (bit_and s.irq.irq_lines (2 ^ irq))) refl
          (set_irq-apart irq (record s { irq = c })
            ∙ h.apart s c s.main_timer s.next_timer s.notified s.halted))

  pub lower-apart : (irq : ℕ) (s : Soc) → f (hw_irq_ctrl_lower_level_irq_line irq s) ≡ f s
  unfolding hw_irq_ctrl_lower_level_irq_line
  lower-apart irq s =
      let c = record (s.irq) { irq_lines = clear64 s.irq.irq_lines (2 ^ irq) } in
      if_intro (λ (t : Soc). f t ≡ f s) (leb 47 irq)
        (h.apart s s.irq s.main_timer s.next_timer s.notified true)
        (h.apart s c s.main_timer s.next_timer s.notified s.halted)

-- Lowering the line of one of the 47 interrupts clears its bit.
pub lower-line :
    (irq : ℕ) (s : Soc)
    → irq < 47
    → s.irq.irq_lines < 2 ^ 64
    → bit (hw_irq_ctrl_lower_level_irq_line irq s).irq.irq_lines irq ≡ false
unfolding hw_irq_ctrl_lower_level_irq_line
lower-line irq s h fits =
    let real : leb 47 irq ≡ false = ground arith in
    rw real (ground (arith, bit-clear_one irq irq s.irq.irq_lines (omega arith) fits))
