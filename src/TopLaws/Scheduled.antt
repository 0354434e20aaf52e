-- ===== src/TopLaws/Scheduled.antt =====
-- Between two events nrf_hw_next_timer_to_trigger and timer_nrf_main_timer of
-- src/HW_models/NRF_HW_model_top.c agree with the models' timers.
use ext_nrf52_hw_models.Common.{ℕ, ◌+◌, Bool, ◌≡◌, refl, Bool-cases, inl, inr, ◌==◌, ==_iff, sym}
use ext_nrf52_hw_models.Soc.{Soc, IrqCtrl}
use ext_nrf52_hw_models.Top.{timers, choose_from, nrf_hw_find_next_timer_to_trigger}

-- The two variables are what the choice over the table gives now.
abbrev pub IsScheduled : Soc → Type 0
IsScheduled s =
    (s.main_timer ≡ (choose_from (timers s)).new_timer)
    × (s.next_timer ≡ (choose_from (timers s)).index)

pub find_next-IsScheduled : (s : Soc) → IsScheduled (nrf_hw_find_next_timer_to_trigger s)
unfolding nrf_hw_find_next_timer_to_trigger
find_next-IsScheduled s = elim (Bool-cases ((choose_from (timers s)).new_timer == s.main_timer)) [
  | inl same ↦ rw same (sym ((==_iff _ _).0 same), refl)
  | inr other ↦ rw other (refl, refl)
]

-- Only the fields of the scheduler change.
pub find_next-irq : (s : Soc) → (nrf_hw_find_next_timer_to_trigger s).irq ≡ s.irq
unfolding nrf_hw_find_next_timer_to_trigger
find_next-irq s = elim (Bool-cases ((choose_from (timers s)).new_timer == s.main_timer)) [
  | inl same ↦ rw same
  | inr other ↦ rw other
]

-- f reads neither the scheduler's variables nor the interrupt controller.
pub record IsApart {ℓ} {A : Type ℓ} (f : Soc → A) : Type ℓ where
  pub apart :
      (s : Soc) (c : IrqCtrl) (main next notified : ℕ) (halted : Bool)
      → f (record s {
        irq = c;
        main_timer = main;
        next_timer = next;
        notified = notified;
        halted = halted;
      })
        ≡ f s

module _ {ℓ} {A : Type ℓ} (f : Soc → A) (h : IsApart f) where
  pub find_next-apart : (s : Soc) → f (nrf_hw_find_next_timer_to_trigger s) ≡ f s
  unfolding nrf_hw_find_next_timer_to_trigger
  find_next-apart s =
      let c = choose_from (timers s) in
      elim (Bool-cases (c.new_timer == s.main_timer)) [
        | inl same ↦ rw same (h.apart s s.irq s.main_timer c.index s.notified s.halted)
        | inr other ↦ rw other (h.apart s s.irq c.new_timer c.index (s.notified + 1) s.halted)
      ]
