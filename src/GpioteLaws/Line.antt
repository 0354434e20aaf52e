-- ===== src/GpioteLaws/Line.antt =====
-- The level interrupt of src/HW_models/NRF_GPIOTE.c.
use ext_nrf52_hw_models.Common.{
  ℕ, ◌^◌, ◌/◌, ◌%◌, ◌<◌, ◌≡◌, refl, sym, ◌∙◌, ◌↔◌, ◌⊎◌, Bool, true, false, ◌&&◌, ◌||◌, ◌==◌,
  if◌then◌else◌, Bool-cases, inl, inr, arith, for_range, for_range_any, standing_iff, nonzero,
  bit_and,
}
use ext_nrf52_hw_models.Common.Bits.{bit}
use ext_nrf52_hw_models.Soc.{Soc, Gpiote}
use ext_nrf52_hw_models.Soc.Env.{Env}
use ext_nrf52_hw_models.TopLaws.Scheduled.{IsApart}
use ext_nrf52_hw_models.IrqLaws.Level.{Follows, raise-Follows, lower-Follows}
use ext_nrf52_hw_models.Gpiote.Events.{
  n_gpiote_channels, with_gpiote, new_int_line, nrf_gpiote_eval_interrupt,
}

or_cases : (a b : Bool) → (a || b) ≡ true → (a ≡ true) ⊎ (b ≡ true)
or_cases true b h = inl refl
or_cases false b h = inr h

or_left : (a b : Bool) → a ≡ true → (a || b) ≡ true
or_left a b h = rw h refl

or_right : (a b : Bool) → b ≡ true → (a || b) ≡ true
or_right true b h = refl
or_right false b h = h

both_nonzero : (a b : ℕ) → ((nonzero a && nonzero b) ≡ true) ↔ ((0 < a) × (0 < b))
both_nonzero a b = ground arith

module _ ⦃env : Env⦄ where
  -- One of the eight IN events stands and is enabled, or the PORT event does.
  abbrev pub Interrupting : Gpiote → Type 0
  Interrupting g =
      ((i : ℕ) × (i < 8) × (g.inten / 2 ^ i % 2 ≡ 1) × (0 < g.events_in i))
      ⊎ ((0 < g.events_port)
          × (0
              < bit_and g.inten env.mdk.gpiote_intenclr_port_msk
                / 2 ^ env.mdk.gpiote_intenclr_port_pos))

  new_int_line_lem : (g : Gpiote) → (new_int_line g ≡ true) ↔ Interrupting g
  unfolding new_int_line
  new_int_line_lem g =
      let any =
        for_range_any (λ i. g.inten / 2 ^ i % 2 == 1 && nonzero (g.events_in i))
          n_gpiote_channels in
      let standing = λ (i : ℕ). standing_iff (g.inten / 2 ^ i % 2) (g.events_in i) in
      let port =
        nonzero g.events_port
        && nonzero (
            bit_and g.inten env.mdk.gpiote_intenclr_port_msk
            / 2 ^ env.mdk.gpiote_intenclr_port_pos) in
      let channels =
        for_range n_gpiote_channels 0
          (λ i line. if g.inten / 2 ^ i % 2 == 1 && nonzero (g.events_in i) then true else line)
          false in
      (
        λ r. elim (or_cases channels port r) [
          | inl one ↦
              let p = any.0 one in let both = (standing p.0).0 p.2 in inl (p.0, p.1, both.0, both.1)
          | inr set ↦ inr ((both_nonzero _ _).0 set)
        ],
        λ q. elim q [
          | inl p ↦ or_left channels port (any.1 (p.0, p.1, (standing p.0).1 (p.2, p.3)))
          | inr set ↦ or_right channels port ((both_nonzero _ _).1 set)
        ],
      )

  int_line-IsApart : IsApart (λ (s : Soc). s.gpiote.int_line)
  int_line-IsApart = record { apart = λ s c m n k h. refl }

  line-Follows :
      (s : Soc)
      → env.mdk.gpiote_irqn < 47
      → s.irq.irq_lines < 2 ^ 64
      → bit s.irq.irq_lines env.mdk.gpiote_irqn ≡ s.gpiote.int_line
      → Follows env.mdk.gpiote_irqn
          (λ t. t.gpiote.int_line)
          (new_int_line s.gpiote)
          (nrf_gpiote_eval_interrupt s)
  unfolding nrf_gpiote_eval_interrupt
  line-Follows s mapped fits agree =
      let g = s.gpiote in
      let irq = env.mdk.gpiote_irqn in
      let line = λ (t : Soc). t.gpiote.int_line in
      let set : Bool → Soc = λ b. with_gpiote (record g { int_line = b }) s in
      elim (Bool-cases (new_int_line g)) [
        | inl on ↦ elim (Bool-cases g.int_line) [
          | inl up ↦ rw (on, up) (refl, agree ∙ up)
          | inr down ↦
              rw (on, down)
                (raise-Follows irq line int_line-IsApart (set true) mapped refl (agree ∙ down))
        ]
        | inr off ↦ elim (Bool-cases g.int_line) [
          | inl up ↦
              rw (off, up) (lower-Follows irq line int_line-IsApart (set false) mapped refl fits)
          | inr down ↦ rw (off, down) (refl, agree ∙ down)
        ]
      ]

  -- For a GPIOTE interrupt below 47, in a 64-bit line register whose bit for it agrees with the model's line:
  -- after nrf_gpiote_eval_interrupt that bit and the line are both up exactly if one of the eight IN events
  -- or the PORT event stands and is enabled.
  pub gpiote_eval_interrupt_lem :
      (s : Soc)
      → env.mdk.gpiote_irqn < 47
      → s.irq.irq_lines < 2 ^ 64
      → bit s.irq.irq_lines env.mdk.gpiote_irqn ≡ s.gpiote.int_line
      → let s' = nrf_gpiote_eval_interrupt s in
        (bit s'.irq.irq_lines env.mdk.gpiote_irqn ≡ s'.gpiote.int_line)
        × ((s'.gpiote.int_line ≡ true) ↔ Interrupting s.gpiote)
  gpiote_eval_interrupt_lem s mapped fits agree =
      let iff = new_int_line_lem s.gpiote in
      let follows = line-Follows s mapped fits agree in
      (follows.1 ∙ sym follows.0, (λ p. iff.0 (sym follows.0 ∙ p), λ q. follows.0 ∙ iff.1 q))
