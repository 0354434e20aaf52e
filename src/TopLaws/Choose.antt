-- ===== src/TopLaws/Choose.antt =====
-- nrf_hw_find_next_timer_to_trigger of src/HW_models/NRF_HW_model_top.c picks the earliest timer,
-- and of equal ones the first in the table.
use ext_nrf52_hw_models.Common.{
  ℕ, suc, ◌+◌, ◌≤◌, ◌<◌, ◌≡◌, refl, List, [], ◌∷◌, length, get_or, ltb, arith, ◌==◌, ==_iff,
  Bool-cases, inl, inr, ◌≢◌, ltb→lt, ltb→le, ◌⊎◌,
}
use mathlib.Core.List.{tail}
use ext_nrf52_hw_models.Soc.{Soc}
use ext_nrf52_hw_models.Top.{timers, Choice, choose, choose_from, nrf_hw_find_next_timer_to_trigger}

-- The choice c is the first of the least among the entries of the table at the indices below i.
pub record IsFirstMin (table : ℕ → ℕ) (i : ℕ) (c : Choice) : Type 0 where
  pub in_range : c.index < i
  pub entry : c.new_timer ≡ table c.index
  pub least : (j : ℕ) → j < i → c.new_timer ≤ table j
  pub earlier : (j : ℕ) → j < c.index → c.new_timer < table j

IsFirstMin-keep :
    (table : ℕ → ℕ) (i : ℕ) (c : Choice)
    → c.new_timer ≤ table i
    → IsFirstMin table i c
    → IsFirstMin table (i + 1) c
IsFirstMin-keep table i c le h = record {
  in_range = omega (arith, h.in_range);
  entry = h.entry;
  least = λ j below. elim (Bool-cases (ltb j i)) [
    | inl old ↦ h.least j (ltb→lt j i old)
    | inr new ↦ let here : j ≡ i = omega (arith, ltb→le j i new) in rw here le
  ];
  earlier = h.earlier;
}

IsFirstMin-take :
    (table : ℕ → ℕ) (i : ℕ) (c : Choice)
    → table i < c.new_timer
    → IsFirstMin table i c
    → IsFirstMin table (i + 1) (record { new_timer = table i; index = i })
IsFirstMin-take table i c less h = record {
  in_range = omega arith;
  entry = refl;
  least = λ j below. elim (Bool-cases (ltb j i)) [
    | inl old ↦ let p = h.least j (ltb→lt j i old) in omega arith
    | inr new ↦ let here : j ≡ i = omega (arith, ltb→le j i new) in rw here (omega arith)
  ];
  earlier = λ j below. let p = h.least j below in omega arith;
}

choose-IsFirstMin :
    (ts : List ℕ) (table : ℕ → ℕ) (i : ℕ) (c : Choice)
    → ((k : ℕ) → k < length ts → table (i + k) ≡ get_or ts k 0)
    → IsFirstMin table i c
    → IsFirstMin table (i + length ts) (choose ts i c)
unfolding choose
choose-IsFirstMin [] table i c same h = let stop : i + 0 ≡ i = omega arith in rw stop h
choose-IsFirstMin (t ∷ ts) table i c same h =
    let step : i + suc (length ts) ≡ i + 1 + length ts = omega arith in
    let rest : (k : ℕ) → k < length ts → table (i + 1 + k) ≡ get_or ts k 0 = λ k below.
      let next : i + suc k ≡ i + 1 + k = omega arith in rw next at (same (suc k) (omega arith)) in
    let now : table i ≡ t =
      let start : i + 0 ≡ i = omega arith in rw start at (same 0 (omega arith)) in
    rw step (elim (Bool-cases (ltb t c.new_timer)) [
      | inl less ↦ rw less (
          choose-IsFirstMin ts table (i + 1) (record { new_timer = t; index = i }) rest
            (rw (← now) (IsFirstMin-take table i c (rw now (ltb→lt _ _ less)) h)))
      | inr not_less ↦ rw not_less (
          choose-IsFirstMin ts table (i + 1) c rest
            (IsFirstMin-keep table i c (rw now (ltb→le _ _ not_less)) h))
    ])

choose_from-IsFirstMin :
    (t : ℕ) (ts : List ℕ)
    → IsFirstMin (λ j. get_or (t ∷ ts) j 0) (1 + length ts) (choose_from (t ∷ ts))
choose_from-IsFirstMin t ts =
    choose-IsFirstMin ts (λ j. get_or (t ∷ ts) j 0) 1 (record { new_timer = t; index = 0 })
      (λ k below. let next : 1 + k ≡ suc k = omega arith in rw next refl)
      (record {
        in_range = omega arith;
        entry = refl;
        least = λ j below. let only : j ≡ 0 = omega arith in rw only (omega arith);
        earlier = λ j below. absurd (omega arith);
      })

-- The table entry i of a state.
abbrev pub timer_at : Soc → ℕ → ℕ
timer_at s i = get_or (timers s) i 0

abbrev timers_tail : Soc → List ℕ
timers_tail s = tail (timers s)

-- After nrf_hw_find_next_timer_to_trigger the main timer is the least of the fifteen timers,
-- nrf_hw_next_timer_to_trigger is the first index at which it stands, no model's timer has changed,
-- and the time machine is notified exactly if the main timer has changed.
pub find_next-IsFirstMin :
    (s : Soc)
    → let s' = nrf_hw_find_next_timer_to_trigger s in
      IsFirstMin (timer_at s) 15 (record { new_timer = s'.main_timer; index = s'.next_timer })
      × (timers s' ≡ timers s)
      × ((s'.notified ≡ s.notified) × (s'.main_timer ≡ s.main_timer)
          ⊎ (s'.notified ≡ s.notified + 1) × (s'.main_timer ≢ s.main_timer))
unfolding nrf_hw_find_next_timer_to_trigger
find_next-IsFirstMin s = elim (Bool-cases ((choose_from (timers s)).new_timer == s.main_timer)) [
  | inl same ↦
      let held : (choose_from (timers s)).new_timer ≡ s.main_timer = (==_iff _ _).0 same in
      rw same (rw (← held) (table, refl, inl (refl, refl)))
  | inr other ↦ rw other (table, refl, inr (refl, ground arith))
]
  where
    table : IsFirstMin (timer_at s) 15 (choose_from (timers s))
    table = choose_from-IsFirstMin s.fake_timer (timers_tail s)
