-- ===== src/RtcLaws/Counter.antt =====
-- The counter of src/HW_models/NRF_RTC.c, from the write that sets it to a later read.
use ext_nrf52_hw_models.Common.{
  ℕ, ◌+◌, ◌*◌, ◌/◌, ◌-◌, ◌%◌, ◌^◌, ◌<◌, ◌≤◌, ◌≡◌, refl, ◌∙◌, ap, true, ==_refl, leb, arith,
  for_range, u64, bit_and, Bool-cases, inl, inr, leb→le, leb→lt,
}
use ext_nrf52_hw_models.Common.Bits.{mask_low}
use ext_nrf52_hw_models.Soc.{Soc, Rtc}
use ext_nrf52_hw_models.Soc.Env.{Env}
use ext_nrf52_hw_models.TopLaws.Scheduled.{IsApart, find_next-apart}
use ext_nrf52_hw_models.Rtc.{
  rtc_counter_mask, tick_sub_us, time_sub_us_to_counter, counter_to_time_sub_us, get_hw_time_sub_us,
  us_time_to_sub_us_time, get_last_lf_tick_time_sub_us, time_fits, update_cc_timer,
  update_all_cc_timers, update_overflow_timer, update_master_timer, rtc_of, with_rtc,
  elapsed_sub_us, check_time, set_start, update_timers, set_counter_to, nrf_rtc_update_counter,
}
use native.Mathlib.Nat.{add-mul-div_right, mul-le-mul}

rtc-IsApart : (i : ℕ) → IsApart (rtc_of i)
rtc-IsApart i = record { apart = λ s c m n k h. refl }

-- A count takes 15625 units for each step of the prescaler.
tick_lem : (r : Rtc) → r.prescaler < 4096 → tick_sub_us r ≡ 15625 * (r.prescaler + 1)
tick_lem r small = omega arith

small_product : (v t : ℕ) → v < 2 ^ 24 → t ≤ 2 ^ 26 → v * t < 2 ^ 50
small_product v t v_small t_small =
    let below : v ≤ 2 ^ 24 - 1 = omega arith in
    let bound : v * t ≤ (2 ^ 24 - 1) * 2 ^ 26 = mul-le-mul below t_small in omega (arith, bound)

-- A later time is the time of the value that was set, and what has passed since the tick.
elapsed-set_start :
    (last v later : ℕ) (r : Rtc)
    → r.prescaler < 4096
    → v < 2 ^ 24
    → later < 2 ^ 54
    → last ≤ later * 2 ^ 9
    → elapsed_sub_us later (set_start last v r) ≡ later * 2 ^ 9 - last + v * tick_sub_us r
unfolding set_start counter_to_time_sub_us get_hw_time_sub_us us_time_to_sub_us_time
elapsed-set_start last v later r small v_small soon past =
    let tick = tick_lem r small in
    let product : v * tick_sub_us r < 2 ^ 50 =
      small_product v (tick_sub_us r) v_small (omega arith) in
    let exact : u64 (v * tick_sub_us r) ≡ v * tick_sub_us r = omega arith in
    rw exact (elim (Bool-cases (leb (v * tick_sub_us r) last)) [
      | inl before ↦ let h = leb→le _ _ before in rw before (omega arith)
      | inr after ↦ let h = leb→lt _ _ after in rw after (omega arith)
    ])

-- And so the count there.
count-set_start :
    (last v later : ℕ) (r : Rtc)
    → r.prescaler < 4096
    → v < 2 ^ 24
    → later < 2 ^ 54
    → last ≤ later * 2 ^ 9
    → time_sub_us_to_counter (elapsed_sub_us later (set_start last v r)) r
      ≡ (later * 2 ^ 9 - last) / tick_sub_us r + v
unfolding time_sub_us_to_counter
count-set_start last v later r small v_small soon past =
    let tick = tick_lem r small in
    rw (elapsed-set_start last v later r small v_small soon past)
      (add-mul-div_right (later * 2 ^ 9 - last) v (omega arith))

-- The counts do not depend on when the counter was set.
prescaler-set_start :
    (last v time : ℕ) (r : Rtc)
    → time_sub_us_to_counter time (set_start last v r) ≡ time_sub_us_to_counter time r
unfolding time_sub_us_to_counter set_start
prescaler-set_start last v time r = refl

sum_lem :
    (passed v counter_val : ℕ)
    → v ≡ counter_val % 2 ^ 24
    → (passed + v) % 2 ^ 24 ≡ (counter_val + passed) % 2 ^ 24
sum_lem passed v counter_val low = omega arith

rtc-with_rtc : (i : ℕ) (r : Rtc) (s : Soc) → rtc_of i (with_rtc i r s) ≡ r
rtc-with_rtc i r s = rw (==_refl i) refl

module _ ⦃env : Env⦄ where
  -- The instance as its timers are set anew.
  abbrev timed : ℕ → Rtc → Rtc
  timed now r = update_overflow_timer now (update_all_cc_timers now r)

  running-timed : (now last v : ℕ) (r : Rtc) → (timed now (set_start last v r)).running ≡ r.running
  unfolding update_overflow_timer update_all_cc_timers update_cc_timer for_range set_start
  running-timed now last v r = refl

  count-timed :
      (now later : ℕ) (r : Rtc)
      → time_sub_us_to_counter (elapsed_sub_us later (timed now r)) (timed now r)
        ≡ time_sub_us_to_counter (elapsed_sub_us later r) r
  unfolding update_overflow_timer update_all_cc_timers update_cc_timer for_range
      time_sub_us_to_counter
  count-timed now later r = refl

  rtc-update_timers : (i : ℕ) (s : Soc) → rtc_of i (update_timers i s) ≡ timed s.now (rtc_of i s)
  unfolding update_timers update_master_timer
  rtc-update_timers i s =
      find_next-apart (rtc_of i) (rtc-IsApart i) _ ∙ rtc-with_rtc i (timed s.now (rtc_of i s)) s

  checked : (s : Soc) → time_fits s.now ≡ true → check_time s ≡ s
  checked s fits = rw fits refl

  rtc-set_counter_to :
      (counter_val i : ℕ) (s : Soc)
      → time_fits s.now ≡ true
      → let last = get_last_lf_tick_time_sub_us s.now s.rtcs.first_lf_tick_time_sub_us in
        rtc_of i (set_counter_to counter_val i s)
        ≡ timed s.now (set_start last (bit_and counter_val rtc_counter_mask) (rtc_of i s))
  unfolding set_counter_to
  rtc-set_counter_to counter_val i s fits =
      let last = get_last_lf_tick_time_sub_us s.now s.rtcs.first_lf_tick_time_sub_us in
      let set = set_start last (bit_and counter_val rtc_counter_mask) (rtc_of i s) in
      ap (λ (t : Soc). rtc_of i (update_timers i (with_rtc i set t))) (checked s fits)
      ∙ rtc-update_timers i (with_rtc i set s)
      ∙ ap (timed s.now) (rtc-with_rtc i set s)

  -- What a read of COUNTER gives of an instance that runs.
  rtc-update_counter :
      (i : ℕ) (s : Soc)
      → (rtc_of i s).running ≡ true
      → (rtc_of i (nrf_rtc_update_counter i s)).counter_reg
        ≡ bit_and
            (time_sub_us_to_counter (elapsed_sub_us s.now (rtc_of i s)) (rtc_of i s))
            rtc_counter_mask
  unfolding nrf_rtc_update_counter
  rtc-update_counter i s running =
      rw running (ap (λ (r : Rtc). r.counter_reg) (rtc-with_rtc i _ (check_time s)))

  -- An instance runs, its prescaler has its 12 bits, the time now fits, and a later one,
  -- below 2 ^ 54, is not before the last tick of the LF clock: a counter that is set now reads then as the
  -- value that was set and the counts that have passed since that tick, in 24 bits.
  pub set_counter_to-update_counter :
      (counter_val i later : ℕ) (s : Soc)
      → (rtc_of i s).running ≡ true
      → (rtc_of i s).prescaler < 4096
      → time_fits s.now ≡ true
      → later < 2 ^ 54
      → let last = get_last_lf_tick_time_sub_us s.now s.rtcs.first_lf_tick_time_sub_us in
        last ≤ later * 2 ^ 9
        → let s' = record (set_counter_to counter_val i s) { now = later } in
          (rtc_of i (nrf_rtc_update_counter i s')).counter_reg
          ≡ (counter_val + (later * 2 ^ 9 - last) / tick_sub_us (rtc_of i s)) % 2 ^ 24
  set_counter_to-update_counter counter_val i later s running small fits soon past =
      let last = get_last_lf_tick_time_sub_us s.now s.rtcs.first_lf_tick_time_sub_us in
      let v = bit_and counter_val rtc_counter_mask in
      let r = rtc_of i s in
      let set = rtc-set_counter_to counter_val i s fits in
      let count : Rtc → ℕ = λ r. time_sub_us_to_counter (elapsed_sub_us later r) r in
      let low : v ≡ counter_val % 2 ^ 24 = mask_low 24 counter_val in
      let on : (rtc_of i (set_counter_to counter_val i s)).running ≡ true =
        ap (λ (x : Rtc). x.running) set ∙ running-timed s.now last v r ∙ running in
      let counted : count (rtc_of i (set_counter_to counter_val i s))
          ≡ (later * 2 ^ 9 - last) / tick_sub_us r + v =
        ap count set
        ∙ count-timed s.now later (set_start last v r)
        ∙ prescaler-set_start last v (elapsed_sub_us later (set_start last v r)) r
        ∙ count-set_start last v later r small (omega arith) soon past in
      rtc-update_counter i _ on
      ∙ ap (λ c. bit_and c rtc_counter_mask) counted
      ∙ mask_low 24 _
      ∙ sum_lem _ v counter_val low
