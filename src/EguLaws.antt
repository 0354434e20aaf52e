-- ===== src/EguLaws.antt =====
-- The level interrupts of src/HW_models/NRF_EGU.c.
use ext_nrf52_hw_models.Common.{
  ℕ, ◌+◌, ◌^◌, ◌/◌, ◌%◌, ◌<◌, ◌≡◌, refl, sym, ◌∙◌, ◌↔◌, Bool, true, false, ◌&&◌, ◌==◌, ==_refl,
  Bool-cases, inl, inr, for_range_any, standing_iff, nonzero,
}
use ext_nrf52_hw_models.Common.Bits.{bit}
use ext_nrf52_hw_models.Soc.{Soc, Egu}
use ext_nrf52_hw_models.Soc.Env.{Env}
use ext_nrf52_hw_models.TopLaws.Scheduled.{IsApart}
use ext_nrf52_hw_models.IrqLaws.Level.{Follows, raise-Follows, lower-Follows}
use ext_nrf52_hw_models.Egu.{with_egu, new_int_line, nrf_egu_eval_interrupt, n_egu_events}

-- One of the first n events stands and is enabled.
abbrev pub Interrupting : Egu → ℕ → Type 0
Interrupting e n = (i : ℕ) × (i < n) × (e.inten / 2 ^ i % 2 ≡ 1) × (0 < e.events_triggered i)

new_int_line_lem : (e : Egu) → (new_int_line e ≡ true) ↔ Interrupting e n_egu_events
unfolding new_int_line
new_int_line_lem e =
    let any =
      for_range_any (λ i. e.inten / 2 ^ i % 2 == 1 && nonzero (e.events_triggered i))
        n_egu_events in
    let standing = λ (i : ℕ). standing_iff (e.inten / 2 ^ i % 2) (e.events_triggered i) in
    (
      λ r. let p = any.0 r in let both = (standing p.0).0 p.2 in (p.0, p.1, both.0, both.1),
      λ p. any.1 (p.0, p.1, (standing p.0).1 (p.2, p.3)),
    )

int_line-IsApart : (inst : ℕ) → IsApart (λ (s : Soc). (s.egu inst).int_line)
int_line-IsApart inst = record { apart = λ s c m n k h. refl }

module _ ⦃env : Env⦄ where
  line-Follows :
      (inst : ℕ) (s : Soc)
      → env.mdk.swi0_egu0_irqn + inst < 47
      → s.irq.irq_lines < 2 ^ 64
      → bit s.irq.irq_lines (env.mdk.swi0_egu0_irqn + inst) ≡ (s.egu inst).int_line
      → Follows
          (env.mdk.swi0_egu0_irqn + inst)
          (λ t. (t.egu inst).int_line)
          (new_int_line (s.egu inst))
          (nrf_egu_eval_interrupt inst s)
  unfolding nrf_egu_eval_interrupt
  line-Follows inst s mapped fits agree =
      let e = s.egu inst in
      let irq = env.mdk.swi0_egu0_irqn + inst in
      let line = λ (t : Soc). (t.egu inst).int_line in
      let apart = int_line-IsApart inst in
      let set : Bool → Soc = λ b. with_egu inst (record e { int_line = b }) s in
      let here : (b : Bool) → line (set b) ≡ b = λ b. rw (==_refl inst) in
      elim (Bool-cases (new_int_line e)) [
        | inl on ↦ elim (Bool-cases e.int_line) [
          | inl up ↦ rw (on, up) (up, agree ∙ up)
          | inr down ↦
              rw (on, down)
                (raise-Follows irq line apart (set true) mapped (here true) (agree ∙ down))
        ]
        | inr off ↦ elim (Bool-cases e.int_line) [
          | inl up ↦
              rw (off, up) (lower-Follows irq line apart (set false) mapped (here false) fits)
          | inr down ↦ rw (off, down) (down, agree ∙ down)
        ]
      ]

  -- For an instance whose interrupt is below 47, in a 64-bit line register whose bit for it agrees with the
  -- instance's line: after nrf_egu_eval_interrupt that bit and the instance's line agree, and they are up
  -- exactly if one of the sixteen events stands and is enabled in INTEN.
  pub eval_interrupt_lem :
      (inst : ℕ) (s : Soc)
      → env.mdk.swi0_egu0_irqn + inst < 47
      → s.irq.irq_lines < 2 ^ 64
      → bit s.irq.irq_lines (env.mdk.swi0_egu0_irqn + inst) ≡ (s.egu inst).int_line
      → let s' = nrf_egu_eval_interrupt inst s in
        (bit s'.irq.irq_lines (env.mdk.swi0_egu0_irqn + inst) ≡ (s'.egu inst).int_line)
        × ((s'.egu inst).int_line ≡ new_int_line (s.egu inst))
        × (((s'.egu inst).int_line ≡ true) ↔ Interrupting (s.egu inst) 16)
  eval_interrupt_lem inst s mapped fits agree =
      let follows = line-Follows inst s mapped fits agree in
      let iff = new_int_line_lem (s.egu inst) in
      (
        follows.1 ∙ sym follows.0,
        follows.0,
        (λ p. iff.0 (sym follows.0 ∙ p), λ q. follows.0 ∙ iff.1 q),
      )
