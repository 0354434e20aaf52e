-- ===== src/TopLaws/Reached.antt =====
-- nrf_hw_some_timer_reached of src/HW_models/NRF_HW_model_top.c: the scheduler after each handler.
use ext_nrf52_hw_models.Common.{
  ℕ, zero, suc, ◌+◌, ◌≡◌, Bool, true, not, ◌||◌, ◌==◌, List, [], ◌∷◌, get_or, arith,
}
use ext_nrf52_hw_models.Soc.{Soc}
use ext_nrf52_hw_models.Soc.Env.{Env}
use ext_nrf52_hw_models.TopLaws.Scheduled.{IsScheduled}
use ext_nrf52_hw_models.TopLaws.Handlers.{
  ticker-IsScheduled, fake-IsScheduled, irq-IsScheduled, timer-IsScheduled, rtc-IsScheduled,
  nvmc-IsScheduled,
}
use ext_nrf52_hw_models.TopLaws.Dispatch.{
  KeepsScheduled, rng-IsScheduled, temp-IsScheduled, ecb-IsScheduled, clock-IsScheduled,
  aar-IsScheduled, bitcounter-IsScheduled,
}
use ext_nrf52_hw_models.Irq.{trace_error}
use ext_nrf52_hw_models.Dispatch.{handlers, nrf_hw_some_timer_reached}

-- Q holds of each entry with its index, counted from k.
AllFrom {ℓ} : {A : Type ℓ} → (ℕ → A → Type 0) → ℕ → List A → Type 0
AllFrom Q k [] = Unit
AllFrom Q k (x ∷ xs) = Q k x × AllFrom Q (k + 1) xs

get_or-AllFrom {ℓ} :
    {A : Type ℓ} (Q : ℕ → A → Type 0) (d : A)
    → ((i : ℕ) → Q i d)
    → (xs : List A) (k : ℕ) → AllFrom Q k xs
    → (i : ℕ) → Q (k + i) (get_or xs i d)
unfolding AllFrom
get_or-AllFrom Q d base [] k all i = base (k + i)
get_or-AllFrom Q d base (x ∷ xs) k all zero = let here : k + 0 ≡ k = omega arith in rw here all.0
get_or-AllFrom Q d base (x ∷ xs) k all (suc i) =
    let there : k + suc i ≡ k + 1 + i = omega arith in
    rw there (get_or-AllFrom Q d base xs (k + 1) all.1 i)

-- The indices but those of the GPIO's input changes, of the radio's state machine and of the radio's abort
-- reevaluation.
abbrev pub is_covered : ℕ → Bool
is_covered i = not (i == 9 || i == 12 || i == 14)

module _ ⦃env : Env⦄ (keeps : KeepsScheduled env) where
  -- If the tasks that events trigger leave the scheduler in agreement with the models' timers, and it is so
  -- before, it is so after nrf_hw_some_timer_reached for every value of nrf_hw_next_timer_to_trigger but
  -- those of the GPIO's input changes, the radio's state machine and the radio's abort reevaluation, the error
  -- branch included: the main timer and the next timer are what the choice over the models' timers gives.
  pub some_timer_reached-IsScheduled :
      (uicr_bytes : ℕ) (s : Soc)
      → is_covered s.next_timer ≡ true
      → IsScheduled s
      → IsScheduled (nrf_hw_some_timer_reached uicr_bytes s)
  unfolding nrf_hw_some_timer_reached AllFrom
  some_timer_reached-IsScheduled uicr_bytes s modelled h =
      let start : 0 + s.next_timer ≡ s.next_timer = omega arith in
      get_or-AllFrom (λ i f. is_covered i ≡ true → IsScheduled (f s)) trace_error (λ i m. h)
        (handlers uicr_bytes) 0
        (
          λ m. fake-IsScheduled s,
          (
            λ m. ticker-IsScheduled s,
            (
              λ m. irq-IsScheduled s,
              (
                λ m. rng-IsScheduled keeps s,
                (
                  λ m. temp-IsScheduled keeps s,
                  (
                    λ m. nvmc-IsScheduled uicr_bytes s h,
                    (
                      λ m. ecb-IsScheduled keeps s,
                      (
                        λ m. aar-IsScheduled keeps s,
                        (
                          λ m. clock-IsScheduled keeps s h,
                          (
                            λ m. absurd (ground arith),
                            (
                              λ m. rtc-IsScheduled s,
                              (
                                λ m. timer-IsScheduled s,
                                (
                                  λ m. absurd (ground arith),
                                  (
                                    λ m. bitcounter-IsScheduled keeps s,
                                    (λ m. absurd (ground arith), tt),
                                  ),
                                ),
                              ),
                            ),
                          ),
                        ),
                      ),
                    ),
                  ),
                ),
              ),
            ),
          ),
        )
        s.next_timer (rw start modelled)
