-- ===== src/TimerLaws/Line.antt =====
-- nrf_timer_eval_interrupts of src/HW_models/NRF_TIMER.c: the level interrupt of one instance.
use ext_nrf52_hw_models.Common.{
  ℕ, zero, suc, ◌+◌, ◌*◌, ◌-◌, ◌^◌, ◌≤◌, ◌<◌, ◌≡◌, refl, sym, ◌∙◌, ap, ◌↔◌, ◌&&◌, ◌||◌, nonzero,
  bit_and, u32, Passes, Passes-step, for_range_inv, Bool, true, false, ltb, ==_refl, if◌then◌else◌,
  Bool-cases, inl, inr, arith,
}
use ext_nrf52_hw_models.Common.Bits.{bit, test_bit}
use ext_nrf52_hw_models.Common.Clear.{pow-lt}
use native.Mathlib.Nat.{pow-suc}
use ext_nrf52_hw_models.Soc.{Soc, Tim}
use ext_nrf52_hw_models.Soc.Env.{Env}
use ext_nrf52_hw_models.IrqLaws.Apart.{raise-apart, lower-apart, lower-line}
use ext_nrf52_hw_models.IrqLaws.Lines.{raise_level_irq_line_lem}
use ext_nrf52_hw_models.TopLaws.Scheduled.{IsApart}
use ext_nrf52_hw_models.Timer.{
  tim, with_tim, wants_interrupt, nrf_timer_get_irq_number, nrf_timer_eval_interrupts, timer_n_ccs,
  n_timers,
}

tim-IsApart : (t : ℕ) → IsApart (tim t)
tim-IsApart t = record { apart = λ s c m n k h. refl }

-- Does the compare event of a channel stand, with its bit of INTEN set?
abbrev pub stands : Tim → ℕ → Bool
stands m channel = nonzero (m.events_compare channel) && bit m.inten (16 + channel)

pow-compare : (channel : ℕ) → 2 ^ (16 + channel) ≡ 2 ^ 16 * 2 ^ channel
pow-compare zero = refl
pow-compare (suc channel) =
    let below = pow-compare channel in
    let next : 16 + suc channel ≡ suc (16 + channel) = omega arith in
    let here : 2 ^ (16 + suc channel) ≡ 2 ^ (16 + channel) * 2 =
      rw next (pow-suc 2 (16 + channel)) in
    omega (arith, below, here, pow-suc 2 channel)

-- TIMER_INTENSET_COMPARE0_Msk << cc is the bit of channel cc.
compare_bit :
    (x channel : ℕ)
    → channel < 6
    → nonzero (bit_and x (u32 (2 ^ 16 * 2 ^ channel))) ≡ bit x (16 + channel)
compare_bit x channel few =
    let shift : 2 ^ (16 + channel) ≡ 2 ^ 16 * 2 ^ channel = pow-compare channel in
    let small : 2 ^ (16 + channel) < 2 ^ 32 = pow-lt (16 + channel) 32 (omega arith) in
    let word : u32 (2 ^ 16 * 2 ^ channel) ≡ 2 ^ (16 + channel) = omega arith in
    rw word (test_bit (16 + channel) x)

either : (x y : Bool) → (x || y) ≡ (if y then true else x)
either true y = ground arith
either false y = ground arith

module _ ⦃env : Env⦄ where
  wants_interrupt_lem :
      (n : ℕ) (m : Tim)
      → n ≤ 6
      → env.mdk.timer_intenset_compare0_msk ≡ 2 ^ 16
      → (wants_interrupt n m ≡ true) ↔ Passes (stands m) n
  unfolding wants_interrupt
  wants_interrupt_lem n m few mask =
      for_range_inv (λ k line. k ≤ 6 → (line ≡ true) ↔ Passes (stands m) k)
        (λ channel line.
          line
          || nonzero (m.events_compare channel)
            && nonzero (bit_and m.inten (u32 (env.mdk.timer_intenset_compare0_msk * 2 ^ channel))))
        (λ k line h below.
          rw (mask, compare_bit m.inten k (omega arith), either line (stands m k))
            (Passes-step (stands m) k line (h (omega arith))))
        n 0 n false (omega arith)
        (λ none. (λ r. absurd (ground arith), λ p. absurd (omega (arith, p.1)))) few

  timer_ccs : (t : ℕ) → timer_n_ccs t ≤ 6
  timer_ccs zero = omega arith
  timer_ccs (suc zero) = omega arith
  timer_ccs (suc (suc zero)) = omega arith
  timer_ccs (suc (suc (suc zero))) = omega arith
  timer_ccs (suc (suc (suc (suc zero)))) = omega arith
  timer_ccs (suc (suc (suc (suc (suc t))))) = omega arith

  eval_interrupts-wants_interrupt :
      (t : ℕ) (s : Soc)
      → t < n_timers
      → env.mdk.timer_irqn t < 47
      → s.irq.irq_lines < 2 ^ 64
      → bit s.irq.irq_lines (env.mdk.timer_irqn t) ≡ (tim t s).int_line
      → let s' = nrf_timer_eval_interrupts t s in
        let wanted = wants_interrupt (timer_n_ccs t) (tim t s) in
        ((tim t s').int_line ≡ wanted) × (bit s'.irq.irq_lines (env.mdk.timer_irqn t) ≡ wanted)
  unfolding nrf_timer_eval_interrupts nrf_timer_get_irq_number
  eval_interrupts-wants_interrupt t s real mapped fits agree =
      let m = tim t s in
      let irq = env.mdk.timer_irqn t in
      let set : Bool → Soc = λ line. with_tim t (record m { int_line = line }) s in
      let here : (line : Bool) → (tim t (set line)).int_line ≡ line = λ line. rw (==_refl t) in
      let own : (if ltb t n_timers then env.mdk.timer_irqn t else 2 ^ 32 - 1)
          ≡ env.mdk.timer_irqn t =
        ground arith in
      rw own (elim (Bool-cases (wants_interrupt (timer_n_ccs t) m)) [
        | inl on ↦ elim (Bool-cases m.int_line) [
          | inl up ↦ rw (on, up) (up, agree ∙ up)
          | inr down ↦
              rw (on, down)
                (
                  ap (λ (x : Tim). x.int_line) (raise-apart (tim t) (tim-IsApart t) irq (set true))
                      ∙ here true,
                  (raise_level_irq_line_lem irq (set true) mapped (agree ∙ down)).0,
                )
        ]
        | inr off ↦ elim (Bool-cases m.int_line) [
          | inl up ↦
              rw (off, up)
                (
                  ap (λ (x : Tim). x.int_line) (lower-apart (tim t) (tim-IsApart t) irq (set false))
                      ∙ here false,
                  lower-line irq (set false) mapped fits,
                )
          | inr down ↦ rw (off, down) (down, agree ∙ down)
        ]
      ])

  -- For one of the five instances, with an interrupt of its own below 47, in a 64-bit line register whose
  -- bit for it agrees with the instance's line, and with INTENSET's mask for COMPARE0 at bit 16: after
  -- nrf_timer_eval_interrupts the instance's line is up exactly if on one of its compare channels the event
  -- stands and bit 16 + channel of INTEN is set, and the interrupt controller's bit is as the line.
  pub eval_interrupts_lem :
      (t : ℕ) (s : Soc)
      → t < n_timers
      → env.mdk.timer_irqn t < 47
      → s.irq.irq_lines < 2 ^ 64
      → bit s.irq.irq_lines (env.mdk.timer_irqn t) ≡ (tim t s).int_line
      → env.mdk.timer_intenset_compare0_msk ≡ 2 ^ 16
      → let s' = nrf_timer_eval_interrupts t s in
        (((tim t s').int_line ≡ true) ↔ Passes (stands (tim t s)) (timer_n_ccs t))
        × (bit s'.irq.irq_lines (env.mdk.timer_irqn t) ≡ (tim t s').int_line)
  eval_interrupts_lem t s real mapped fits agree mask =
      let up = eval_interrupts-wants_interrupt t s real mapped fits agree in
      (rw up.0 (wants_interrupt_lem (timer_n_ccs t) (tim t s) (timer_ccs t) mask), up.1 ∙ sym up.0)
