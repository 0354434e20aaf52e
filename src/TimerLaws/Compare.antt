-- ===== src/TimerLaws/Compare.antt =====
-- The next match of a compare register: update_cc_timer of src/HW_models/NRF_TIMER.c.
use ext_nrf52_hw_models.Common.{
  ℕ, zero, suc, ◌+◌, ◌*◌, ◌^◌, ◌≤◌, ◌<◌, ◌≡◌, true, leb, ◌==◌, Bool-cases, inl, inr, leb→le, leb→lt,
  arith, u64, ==_refl,
}
use ext_nrf52_hw_models.Common.Clear.{pow-lt}
use native.Mathlib.Nat.{one-le-pow}
use ext_nrf52_hw_models.Soc.{Tim}
use ext_nrf52_hw_models.Soc.Env.{Env}
use ext_nrf52_hw_models.Timer.{
  advance, update_cc_timer, is_timing, counter_to_time, time_of_1_counter_wrap, mask_from_bitmode,
}

-- r is the first of base, base + wrap, base + 2 * wrap and so on that is later than now.
pub record IsNextMatch (base wrap now r : ℕ) : Type 0 where
  pub later : now < r
  pub on_grid : (k : ℕ) × (r ≡ base + k * wrap)
  pub first : (j : ℕ) → now < base + j * wrap → r ≤ base + j * wrap

-- What is first from the second place on is first where the first place does not count.
first_after :
    (base wrap now r : ℕ)
    → base ≤ now
    → ((j : ℕ) → now < base + wrap + j * wrap → r ≤ base + wrap + j * wrap)
    → (j : ℕ) → now < base + j * wrap
    → r ≤ base + j * wrap
first_after base wrap now r early first zero below = absurd (omega arith)
first_after base wrap now r early first (suc j) below = let p = first j (omega arith) in omega arith

advance-IsNextMatch :
    (fuel now wrap base : ℕ)
    → 0 < wrap
    → now + wrap < 2 ^ 64
    → now < base + fuel
    → IsNextMatch base wrap now (advance fuel now wrap base)
unfolding advance
advance-IsNextMatch zero now wrap base pos small fuelled = record {
  later = omega arith;
  on_grid = (0, omega arith);
  first = λ j below. omega arith;
}
advance-IsNextMatch (suc fuel) now wrap base pos small fuelled = elim (Bool-cases (leb base now)) [
  | inl again ↦
      let no_wrap : u64 (base + wrap) ≡ base + wrap = omega (arith, leb→le base now again) in
      let rest : IsNextMatch (base + wrap) wrap now (advance fuel now wrap (base + wrap)) =
        advance-IsNextMatch fuel now wrap (base + wrap) pos small (omega arith) in
      rw (again, no_wrap)
        (record {
          later = rest.later;
          on_grid = (suc rest.on_grid.0, omega (arith, rest.on_grid.1));
          first =
              first_after base wrap now (advance fuel now wrap (base + wrap))
                (leb→le base now again) rest.first;
        })
  | inr stop ↦ rw stop (record {
    later = leb→lt base now stop;
    on_grid = (0, omega arith);
    first = λ j below. omega arith;
  })
]

-- A counter of 8 bits or more at a prescaler below 32 wraps after a microsecond or more.
one_wrap-pos : (m : Tim) → m.prescaler < 32 → 0 < time_of_1_counter_wrap m
unfolding time_of_1_counter_wrap counter_to_time mask_from_bitmode
one_wrap-pos m h =
    let above : 1 ≤ 2 ^ m.prescaler = one-le-pow m.prescaler 2 (omega arith) in
    let below : 2 ^ m.prescaler < 2 ^ 32 = pow-lt m.prescaler 32 h in
    elim (Bool-cases (m.bitmode == 0)) [
      | inl b0 ↦ rw b0 (omega arith)
      | inr b0 ↦ elim (Bool-cases (m.bitmode == 1)) [
        | inl b1 ↦ rw (b0, b1) (omega arith)
        | inr b1 ↦ elim (Bool-cases (m.bitmode == 2)) [
          | inl b2 ↦ rw (b0, b1, b2) (omega arith)
          | inr b2 ↦ rw (b0, b1, b2) (omega arith)
        ]
      ]
    ]

-- For an instance that runs in timer mode at a prescaler below 32, as long as the time of its first
-- match and the time of a counter's wrap from now fit in 64 bits, update_cc_timer sets the channel's
-- timer to the first time after now among these: the start and the time that the compare value takes,
-- and whole wraps of the counter after that.
pub update_cc_timer-IsNextMatch :
    ⦃env : Env⦄ (now cc : ℕ) (m : Tim)
    → is_timing m ≡ true
    → m.prescaler < 32
    → m.start_t + counter_to_time (m.cc cc) m < 2 ^ 64
    → now + time_of_1_counter_wrap m < 2 ^ 64
    → IsNextMatch
        (m.start_t + counter_to_time (m.cc cc) m)
        (time_of_1_counter_wrap m)
        now
        ((update_cc_timer now cc m).cc_timers cc)
unfolding update_cc_timer
update_cc_timer-IsNextMatch now cc m timing h fits wraps =
    let exact : u64 (m.start_t + counter_to_time (m.cc cc) m)
        ≡ m.start_t + counter_to_time (m.cc cc) m =
      omega arith in
    rw (timing, ==_refl cc, exact)
      (advance-IsNextMatch (now + 1) now (time_of_1_counter_wrap m)
        (m.start_t + counter_to_time (m.cc cc) m) (one_wrap-pos m h) wraps (omega arith))
