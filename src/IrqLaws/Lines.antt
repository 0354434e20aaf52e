-- ===== src/IrqLaws/Lines.antt =====
-- Level interrupts of src/HW_models/irq_ctrl.c: a line that is up pends its interrupt again when the
-- handler has returned, and raising a line wakes the processor in the same microsecond.
use ext_nrf52_hw_models.Common.{
  ℕ, ◌^◌, ◌≤◌, ◌<◌, ◌≡◌, ◌≢◌, refl, ap, ◌∙◌, true, false, not, ◌&&◌, ◌||◌, leb, ◌==◌, nonzero,
  bit_and, bit_or, if_intro, arith,
}
use ext_nrf52_hw_models.Common.Bits.{bit, test_bit}
use ext_nrf52_hw_models.Common.Clear.{bit-clear_one, bit-set}
use ext_nrf52_hw_models.Soc.{Soc, IrqCtrl}
use ext_nrf52_hw_models.TopLaws.Choose.{find_next-IsFirstMin}
use ext_nrf52_hw_models.TopLaws.Scheduled.{find_next-irq}
use ext_nrf52_hw_models.Irq.{
  pend, hw_irq_ctrl_clear_irq, hw_irq_ctrl_reeval_level_irq, hw_irq_ctrl_irq_raise_prefix,
  hw_irq_ctrl_set_irq, hw_irq_ctrl_raise_level_irq_line,
}
use ext_nrf52_hw_models.IrqLaws.Pending.{IsPending}

-- For one of the 47 interrupts of a controller with 64-bit words: after the handler's exit, that is
-- hw_irq_ctrl_clear_irq and then hw_irq_ctrl_reeval_level_irq, the interrupt is pended exactly if
-- its line is up and delivered exactly if it is also enabled, and every other one is as it was.
pub reeval-clear :
    (irq : ℕ) (c : IrqCtrl)
    → irq < 47
    → IsPending c
    → let c' = hw_irq_ctrl_reeval_level_irq irq (hw_irq_ctrl_clear_irq irq c) in
      (bit c'.irq_premask irq ≡ bit c.irq_lines irq)
      × (bit c'.irq_status irq ≡ (bit c.irq_lines irq && bit c.irq_mask irq))
      × ((i : ℕ)
          → i ≢ irq
          → (bit c'.irq_premask i ≡ bit c.irq_premask i)
            × (bit c'.irq_status i ≡ bit c.irq_status i))
unfolding hw_irq_ctrl_reeval_level_irq hw_irq_ctrl_clear_irq pend
reeval-clear irq c h v = (
  ground (arith, up, cleared_premask irq, set_premask irq),
  ground (arith, up, enabled, cleared_status irq, set_status irq),
  λ i other. (
    ground (arith, cleared_premask i, set_premask i),
    ground (arith, cleared_status i, set_status i),
  ),
)
  where
    premask : ℕ
    premask = (hw_irq_ctrl_clear_irq irq c).irq_premask

    status : ℕ
    status = (hw_irq_ctrl_clear_irq irq c).irq_status

    up : nonzero (bit_and c.irq_lines (2 ^ irq)) ≡ bit c.irq_lines irq
    up = test_bit irq c.irq_lines

    enabled : nonzero (bit_and c.irq_mask (2 ^ irq)) ≡ bit c.irq_mask irq
    enabled = test_bit irq c.irq_mask

    cleared_premask : (i : ℕ) → bit premask i ≡ (bit c.irq_premask i && not (irq == i))
    cleared_premask i = bit-clear_one irq i c.irq_premask (omega arith) v.premask_fits

    cleared_status : (i : ℕ) → bit status i ≡ (bit c.irq_status i && not (irq == i))
    cleared_status i = bit-clear_one irq i c.irq_status (omega arith) v.status_fits

    set_premask : (i : ℕ) → bit (bit_or premask (2 ^ irq)) i ≡ (bit premask i || irq == i)
    set_premask i = bit-set irq i premask

    set_status : (i : ℕ) → bit (bit_or status (2 ^ irq)) i ≡ (bit status i || irq == i)
    set_status i = bit-set irq i status

-- The words of the controller after hw_irq_ctrl_set_irq, whether it wakes the processor or not.
set_irq_words :
    (irq : ℕ) (s : Soc)
    → irq < 47
    → let s' = hw_irq_ctrl_set_irq irq s in
      (s'.irq.irq_lines ≡ s.irq.irq_lines)
      × (s'.irq.irq_premask ≡ (pend irq s.irq).irq_premask)
      × (s'.irq.irq_status ≡ (pend irq s.irq).irq_status)
unfolding hw_irq_ctrl_set_irq
set_irq_words irq s h =
    let real : hw_irq_ctrl_irq_raise_prefix irq s.irq ≡ pend irq s.irq =
      unfold hw_irq_ctrl_irq_raise_prefix in ground arith in
    let same : (pend irq s.irq).irq_lines ≡ s.irq.irq_lines = unfold pend in refl in
    rw real (
      if_intro
        (λ (s' : Soc).
          (s'.irq.irq_lines ≡ s.irq.irq_lines)
          × (s'.irq.irq_premask ≡ (pend irq s.irq).irq_premask)
          × (s'.irq.irq_status ≡ (pend irq s.irq).irq_status))
        (not (pend irq s.irq).irqs_locked || (pend irq s.irq).lock_ignore)
        (rw find_next-irq (same, refl, refl)) (same, refl, refl))

set_irq-wakes :
    (irq : ℕ) (s : Soc)
    → irq < 47
    → s.irq.irqs_locked ≡ false
    → (hw_irq_ctrl_set_irq irq s).main_timer ≤ s.now
unfolding hw_irq_ctrl_set_irq
set_irq-wakes irq s h unlocked =
    let c = hw_irq_ctrl_irq_raise_prefix irq s.irq in
    let awake : c.irqs_locked ≡ false = unfold hw_irq_ctrl_irq_raise_prefix pend in ground arith in
    let wakes : (not c.irqs_locked || c.lock_ignore) ≡ true = ground arith in
    rw wakes (
      (find_next-IsFirstMin (record s { irq = record c { timer = s.now } })).0.least 2
        (omega arith))

-- Raising the line of one of the 47 interrupts, when it is down, marks the line, pends the interrupt,
-- and delivers it if it is enabled; and unless interrupts are locked, the main timer comes due now at
-- the latest.
pub raise_level_irq_line_lem :
    (irq : ℕ) (s : Soc)
    → irq < 47
    → bit s.irq.irq_lines irq ≡ false
    → let s' = hw_irq_ctrl_raise_level_irq_line irq s in
      (bit s'.irq.irq_lines irq ≡ true)
      × (bit s'.irq.irq_premask irq ≡ true)
      × (bit s.irq.irq_mask irq ≡ true → bit s'.irq.irq_status irq ≡ true)
      × (s.irq.irqs_locked ≡ false → s'.main_timer ≤ s.now)
unfolding hw_irq_ctrl_raise_level_irq_line
raise_level_irq_line_lem irq s h down =
    let real : leb 47 irq ≡ false = ground arith in
    let low : nonzero (bit_and s.irq.irq_lines (2 ^ irq)) ≡ false = test_bit irq _ ∙ down in
    let raised : Soc = record s {
      irq = record (s.irq) { irq_lines = bit_or s.irq.irq_lines (2 ^ irq) };
    } in
    let words = set_irq_words irq raised h in
    let pended : bit (pend irq raised.irq).irq_premask irq ≡ true =
      unfold pend in ground (arith, bit-set irq irq s.irq.irq_premask) in
    let delivered : bit s.irq.irq_mask irq ≡ true
        → bit (pend irq raised.irq).irq_status irq ≡ true =
      λ on.
        unfold pend in
        ground (arith, test_bit irq s.irq.irq_mask, bit-set irq irq s.irq.irq_status) in
    let marked : bit (bit_or s.irq.irq_lines (2 ^ irq)) irq ≡ true =
      ground (arith, bit-set irq irq s.irq.irq_lines) in
    rw (real, low)
      (
        ap (λ (t : ℕ). bit t irq) words.0 ∙ marked,
        ap (λ (t : ℕ). bit t irq) words.1 ∙ pended,
        λ on. ap (λ (t : ℕ). bit t irq) words.2 ∙ delivered on,
        λ unlocked. set_irq-wakes irq raised h unlocked,
      )
