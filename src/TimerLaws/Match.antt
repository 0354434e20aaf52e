-- ===== src/TimerLaws/Match.antt =====
-- update_cc_timer of src/HW_models/NRF_TIMER.c and the counter: the time that it sets is the next one at
-- which the counter steps to the compare value.
use ext_nrf52_hw_models.Common.{
  ℕ, zero, suc, ◌+◌, ◌-◌, ◌*◌, ◌/◌, ◌%◌, ◌^◌, ◌≤◌, ◌<◌, ◌≡◌, refl, ◌∙◌, ap, true, ltb, ◌==◌,
  if◌then◌else◌, Bool-cases, inl, inr, ltb→lt, ltb→le, bit_and, arith,
}
use ext_nrf52_hw_models.Common.Bits.{mask_low}
use native.Mathlib.Nat.{
  add-mul, mul_assoc, add-mul-mod_self_right, div-add-mod', mod-eq_of_lt, mul-div_cancel,
  mul-lt-mul_of_pos_right, one-le-pow,
}
use ext_nrf52_hw_models.Soc.{Tim}
use ext_nrf52_hw_models.Soc.Env.{Env}
use ext_nrf52_hw_models.Timer.{
  update_cc_timer, is_timing, time_to_counter, counter_to_time, time_of_1_counter_wrap,
  mask_from_bitmode,
}
use ext_nrf52_hw_models.TimerLaws.Compare.{IsNextMatch, update_cc_timer-IsNextMatch}
use ext_nrf52_hw_models.TimerLaws.Counter.{counter_to_time-exact, time_to_counter-exact}

-- A counter that starts from 0 at the time start and counts every tick, modulo wrap: r is the first time
-- after now at which it steps to the value.
pub record IsNextStepTo (start tick wrap value now r : ℕ) : Type 0 where
  pub later : now < r
  pub steps : (n : ℕ) × (r ≡ start + n * tick) × (n % wrap ≡ value)
  pub first : (n : ℕ) → n % wrap ≡ value → now < start + n * tick → r ≤ start + n * tick

-- The width of the counter, by BITMODE.
abbrev pub width : Tim → ℕ
width m =
    if m.bitmode == 0 then 16 else if m.bitmode == 1 then 8 else if m.bitmode == 2 then 24 else 32

-- The mask leaves the counts modulo 2 ^ width, and has so many values.
mask_lem :
    (m : Tim) (n : ℕ)
    → (bit_and (n % 2 ^ 32) (mask_from_bitmode m) ≡ n % 2 ^ width m)
      × (mask_from_bitmode m + 1 ≡ 2 ^ width m)
unfolding mask_from_bitmode
mask_lem m n = elim (Bool-cases (m.bitmode == 0)) [
  | inl b0 ↦ rw b0 (omega (arith, mask_low 16 (n % 2 ^ 32)), refl)
  | inr b0 ↦ elim (Bool-cases (m.bitmode == 1)) [
    | inl b1 ↦ rw (b0, b1) (omega (arith, mask_low 8 (n % 2 ^ 32)), refl)
    | inr b1 ↦ elim (Bool-cases (m.bitmode == 2)) [
      | inl b2 ↦ rw (b0, b1, b2) (omega (arith, mask_low 24 (n % 2 ^ 32)), refl)
      | inr b2 ↦ rw (b0, b1, b2) (omega (arith, mask_low 32 (n % 2 ^ 32)), refl)
    ]
  ]
]

-- The k-th match is a step.
step_lem :
    (start tick wrap value k : ℕ)
    → start + value * tick + k * (wrap * tick) ≡ start + (value + k * wrap) * tick
step_lem start tick wrap value k =
    omega (arith, add-mul value (k * wrap) tick, mul_assoc k wrap tick)

match-IsNextStepTo :
    (start tick wrap value now r : ℕ)
    → value < wrap
    → IsNextMatch (start + value * tick) (wrap * tick) now r
    → IsNextStepTo start tick wrap value now r
match-IsNextStepTo start tick wrap value now r below next = record {
  later = next.later;
  steps =
      let k = next.on_grid.0 in
      (
        value + k * wrap,
        next.on_grid.1 ∙ step_lem start tick wrap value k,
        add-mul-mod_self_right value k wrap ∙ mod-eq_of_lt below,
      );
  first = λ n same late.
      let k = n / wrap in
      let whole : value + k * wrap ≡ n = omega (arith, div-add-mod' n wrap, same) in
      let there : start + value * tick + k * (wrap * tick) ≡ start + n * tick =
        step_lem start tick wrap value k ∙ ap (λ x. start + x * tick) whole in
      rw (← there) (next.first k (omega (arith, there, late)));
}

-- A next match is at most a wrap away, where the first one is.
match_soon :
    (base wrap now r : ℕ)
    → 0 < wrap
    → base < now + wrap
    → IsNextMatch base wrap now r
    → r ≤ now + wrap
match_soon base wrap now r pos early next = by_grid next.on_grid.0 next.on_grid.1
  where
    by_grid : (k : ℕ) → r ≡ base + k * wrap → r ≤ now + wrap
    by_grid zero e = omega arith
    by_grid (suc k) e = elim (Bool-cases (ltb now (base + k * wrap))) [
      | inl late ↦ let sooner = next.first k (ltb→lt _ _ late) in absurd (omega (arith, e, sooner))
      | inr before ↦ let not_late = ltb→le _ _ before in omega (arith, e, not_late)
    ]

-- The code's counter, n ticks after its start.
counter_lem :
    (n q : ℕ) (m : Tim)
    → m.prescaler ≡ q + 4
    → n * 2 ^ q < 2 ^ 60
    → bit_and (time_to_counter (n * 2 ^ q) m) (mask_from_bitmode m) ≡ n % 2 ^ width m
counter_lem n q m presc small =
    let whole : n * 2 ^ q / 2 ^ q ≡ n = mul-div_cancel n (one-le-pow q 2 (omega arith)) in
    ap (λ x. bit_and x (mask_from_bitmode m))
      (time_to_counter-exact (n * 2 ^ q) q m presc small ∙ ap (λ x. x % 2 ^ 32) whole)
    ∙ (mask_lem m n).0

-- For an instance that runs in timer mode at a prescaler q + 4 below 32, since a time that is not after now,
-- with a compare value below 2 to the counter's width, and less than 2 ^ 60 microseconds at the end of a
-- counter's wrap from now: update_cc_timer sets the channel's timer to the first time after now at which the
-- counter, a count every 2 ^ q microseconds from its start, steps to the compare value; and the counter that
-- the code computes for that time is the compare value.
pub update_cc_timer-IsNextStepTo :
    ⦃env : Env⦄ (now cc q : ℕ) (m : Tim)
    → is_timing m ≡ true
    → m.prescaler ≡ q + 4
    → q + 4 < 32
    → m.cc cc < 2 ^ width m
    → m.start_t ≤ now
    → now + 2 ^ width m * 2 ^ q < 2 ^ 60
    → let r = (update_cc_timer now cc m).cc_timers cc in
      IsNextStepTo m.start_t (2 ^ q) (2 ^ width m) (m.cc cc) now r
      × (bit_and (time_to_counter (r - m.start_t) m) (mask_from_bitmode m) ≡ m.cc cc)
unfolding time_of_1_counter_wrap
update_cc_timer-IsNextStepTo now cc q m timing presc shifts below begun small =
    let r = (update_cc_timer now cc m).cc_timers cc in
    let tick_pos : 1 ≤ 2 ^ q = one-le-pow q 2 (omega arith) in
    let within : m.cc cc * 2 ^ q < 2 ^ width m * 2 ^ q = mul-lt-mul_of_pos_right below tick_pos in
    let to : counter_to_time (m.cc cc) m ≡ m.cc cc * 2 ^ q =
      counter_to_time-exact (m.cc cc) q m presc (omega arith) in
    let size = (mask_lem m 0).1 in
    let wrap : time_of_1_counter_wrap m ≡ 2 ^ width m * 2 ^ q =
      ap (λ x. counter_to_time x m) size
      ∙ counter_to_time-exact (2 ^ width m) q m presc (omega arith) in
    let next : IsNextMatch (m.start_t + m.cc cc * 2 ^ q) (2 ^ width m * 2 ^ q) now r =
      rw (← to, ← wrap)
        (update_cc_timer-IsNextMatch now cc m timing (omega (arith, presc)) (omega (arith, to))
          (omega (arith, wrap))) in
    let step : IsNextStepTo m.start_t (2 ^ q) (2 ^ width m) (m.cc cc) now r =
      match-IsNextStepTo m.start_t (2 ^ q) (2 ^ width m) (m.cc cc) now r below next in
    let soon : r ≤ now + 2 ^ width m * 2 ^ q =
      match_soon (m.start_t + m.cc cc * 2 ^ q) (2 ^ width m * 2 ^ q) now r (omega arith)
        (omega arith) next in
    let n = step.steps.0 in
    let elapsed : r - m.start_t ≡ n * 2 ^ q = omega (arith, step.steps.1) in
    (
      step,
      ap (λ x. bit_and (time_to_counter x m) (mask_from_bitmode m)) elapsed
          ∙ counter_lem n q m presc (omega (arith, soon, step.steps.1))
          ∙ step.steps.2,
    )
