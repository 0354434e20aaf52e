-- ===== src/IrqLaws/Level.antt =====
-- A model that drives a level interrupt line: its own record of the line, and the line's bit in the
-- controller of src/HW_models/irq_ctrl.c.
use ext_nrf52_hw_models.Common.{ℕ, ◌^◌, ◌<◌, ◌≡◌, ◌∙◌, Bool, true, false}
use ext_nrf52_hw_models.Common.Bits.{bit}
use ext_nrf52_hw_models.Soc.{Soc}
use ext_nrf52_hw_models.Soc.Env.{Env}
use ext_nrf52_hw_models.TopLaws.Scheduled.{IsApart}
use ext_nrf52_hw_models.Irq.{hw_irq_ctrl_raise_level_irq_line, hw_irq_ctrl_lower_level_irq_line}
use ext_nrf52_hw_models.IrqLaws.Apart.{raise-apart, lower-apart, lower-line}
use ext_nrf52_hw_models.IrqLaws.Lines.{raise_level_irq_line_lem}

-- The model's line and its bit are both as they should be.
abbrev pub Follows : ℕ → (Soc → Bool) → Bool → Soc → Type 0
Follows irq line wanted s = (line s ≡ wanted) × (bit s.irq.irq_lines irq ≡ wanted)

module _ ⦃env : Env⦄ (irq : ℕ) (line : Soc → Bool) (apart : IsApart line) (s : Soc)
    (mapped : irq < 47) where
  pub raise-Follows :
      line s ≡ true
      → bit s.irq.irq_lines irq ≡ false
      → Follows irq line true (hw_irq_ctrl_raise_level_irq_line irq s)
  raise-Follows up low =
      (raise-apart line apart irq s ∙ up, (raise_level_irq_line_lem irq s mapped low).0)

  pub lower-Follows :
      line s ≡ false
      → s.irq.irq_lines < 2 ^ 64
      → Follows irq line false (hw_irq_ctrl_lower_level_irq_line irq s)
  lower-Follows down fits = (lower-apart line apart irq s ∙ down, lower-line irq s mapped fits)
