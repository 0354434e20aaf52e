-- ===== src/TimerLaws/Counter.antt =====
-- The counter of an instance of src/HW_models/NRF_TIMER.c from TASK_START to TASK_STOP.
use ext_nrf52_hw_models.Common.{
  ℕ, suc, ◌+◌, ◌*◌, ◌/◌, ◌%◌, ◌^◌, ◌<◌, ◌≡◌, refl, sym, ◌∙◌, ap, true, false, ==_refl, ◌==◌,
  if_intro, arith, for_range_inv, u64, sub64, update,
}
use native.Mathlib.Nat.{mul-div-mul_right, add-mul-div_right, mul_assoc, one-le-pow, pow-suc}
use ext_nrf52_hw_models.Soc.{Soc, Tim}
use ext_nrf52_hw_models.Soc.Env.{Env}
use ext_nrf52_hw_models.TopLaws.Scheduled.{find_next-apart}
use ext_nrf52_hw_models.Timer.{
  time_to_counter, counter_to_time, update_cc_timer, update_all_cc_timers, clear_cc_timers,
  update_master_timer, tim, with_tim, is_timing, timer_n_ccs, nrf_timer_task_start,
  nrf_timer_task_stop,
}

pow_4 : (q : ℕ) → 2 ^ (q + 4) ≡ 2 ^ q * 16
pow_4 q =
    let four : q + 4 ≡ suc (suc (suc (suc q))) = omega arith in
    rw four (
      omega (
        arith,
        pow-suc 2 q,
        pow-suc 2 (suc q),
        pow-suc 2 (suc (suc q)),
        pow-suc 2 (suc (suc (suc q))),
      ))

-- From a prescaler of 4 on, a count takes 2 ^ (prescaler - 4) microseconds.
pub counter_to_time-exact :
    (c q : ℕ) (m : Tim) → m.prescaler ≡ q + 4 → c * 2 ^ q < 2 ^ 60 → counter_to_time c m ≡ c * 2 ^ q
unfolding counter_to_time
counter_to_time-exact c q m p small =
    let pow : 2 ^ (q + 4) ≡ 2 ^ q * 16 = pow_4 q in
    let wide : c * (2 ^ q * 16) ≡ c * 2 ^ q * 16 = sym (mul_assoc c (2 ^ q) 16) in
    rw (p, pow, wide) (omega arith)

pub time_to_counter-exact :
    (d q : ℕ) (m : Tim)
    → m.prescaler ≡ q + 4
    → d < 2 ^ 60
    → time_to_counter d m ≡ d / 2 ^ q % 2 ^ 32
unfolding time_to_counter
time_to_counter-exact d q m p small =
    let pow : 2 ^ (q + 4) ≡ 2 ^ q * 16 = pow_4 q in
    let fits : u64 (d * 16) ≡ d * 16 = omega arith in
    let same : d * 16 / (2 ^ q * 16) ≡ d / 2 ^ q = mul-div-mul_right d (2 ^ q) (omega arith) in
    rw (p, pow, fits, same)

-- What update_cc_timer and clear_cc_timers leave of an instance.
record IsSameCount (m m' : Tim) : Type 0 where
  counter : m'.counter ≡ m.counter
  start_t : m'.start_t ≡ m.start_t
  running : m'.running ≡ m.running
  mode : m'.mode ≡ m.mode
  prescaler : m'.prescaler ≡ m.prescaler

module _ ⦃env : Env⦄ where
  update_all-IsSameCount : (now n : ℕ) (m : Tim) → IsSameCount m (update_all_cc_timers now n m)
  unfolding update_all_cc_timers update_cc_timer
  update_all-IsSameCount now n m =
      for_range_inv (λ k m'. IsSameCount m m') (update_cc_timer now)
        (λ k m' h.
          if_intro (λ (x : Tim). IsSameCount m x) (is_timing m')
            (record {
              counter = h.counter;
              start_t = h.start_t;
              running = h.running;
              mode = h.mode;
              prescaler = h.prescaler;
            })
            (record {
              counter = h.counter;
              start_t = h.start_t;
              running = h.running;
              mode = h.mode;
              prescaler = h.prescaler;
            }))
        n 0 n m (omega arith)
        (record { counter = refl; start_t = refl; running = refl; mode = refl; prescaler = refl })

  clear-IsSameCount : (n : ℕ) (m : Tim) → IsSameCount m (clear_cc_timers n m)
  unfolding clear_cc_timers
  clear-IsSameCount n m =
      for_range_inv (λ k m'. IsSameCount m m')
        (λ cc m. record m { cc_timers = update m.cc_timers cc env.time_never })
        (λ k m' h. record {
          counter = h.counter;
          start_t = h.start_t;
          running = h.running;
          mode = h.mode;
          prescaler = h.prescaler;
        })
        n 0 n m (omega arith)
        (record { counter = refl; start_t = refl; running = refl; mode = refl; prescaler = refl })

  update_master-tim : (t : ℕ) (m : Tim) (s : Soc) → tim t (update_master_timer (with_tim t m s)) ≡ m
  unfolding update_master_timer
  update_master-tim t m s =
      find_next-apart (tim t) (record { apart = λ s c m n k h. refl }) _ ∙ rw (==_refl t)

  -- The instance after TASK_START, when it was stopped and is in timer mode.
  started-IsSameCount :
      (t : ℕ) (s : Soc)
      → (tim t s).running ≡ false
      → (tim t s).mode ≡ 0
      → IsSameCount
          (record (tim t s) {
            running = true;
            start_t = sub64 s.now (counter_to_time (tim t s).counter (tim t s));
          })
          (tim t (nrf_timer_task_start t s))
  unfolding nrf_timer_task_start
  started-IsSameCount t s stopped timing =
      let m = tim t s in
      let on = record m { running = true; start_t = sub64 s.now (counter_to_time m.counter m) } in
      let zero_mode : (m.mode == 0) ≡ true = ground arith in
      rw (stopped, zero_mode)
        (rw (update_master-tim t (update_all_cc_timers s.now (timer_n_ccs t) on) s)
          (update_all-IsSameCount s.now (timer_n_ccs t) on))

  stopped-counter :
      (t : ℕ) (s : Soc)
      → (tim t s).running ≡ true
      → (tim t s).mode ≡ 0
      → ((tim t (nrf_timer_task_stop t s)).counter
          ≡ time_to_counter (sub64 s.now (tim t s).start_t) (tim t s))
        × ((tim t (nrf_timer_task_stop t s)).running ≡ false)
  unfolding nrf_timer_task_stop
  stopped-counter t s running timing =
      let m = tim t s in
      let off = record m { running = false; counter = time_to_counter (sub64 s.now m.start_t) m } in
      let zero_mode : (m.mode == 0) ≡ true = ground arith in
      let kept = clear-IsSameCount (timer_n_ccs t) off in
      rw (running, zero_mode)
        (rw (update_master-tim t (clear_cc_timers (timer_n_ccs t) off) s)
          (kept.counter, kept.running))

  -- A stopped instance in timer mode with the prescaler q + 4 and a counter that takes less than 2 ^ 60
  -- microseconds to reach: if TASK_START comes and, d microseconds later and with the instance as it then
  -- was, TASK_STOP, then the instance is stopped and the counter has gone on by d / 2 ^ q counts, modulo
  -- 2 ^ 32.
  pub task_start-task_stop :
      (t d q : ℕ) (s later : Soc)
      → (tim t s).running ≡ false
      → (tim t s).mode ≡ 0
      → (tim t s).prescaler ≡ q + 4
      → d + (tim t s).counter * 2 ^ q < 2 ^ 60
      → s.now + d < 2 ^ 64
      → later.now ≡ s.now + d
      → tim t later ≡ tim t (nrf_timer_task_start t s)
      → ((tim t (nrf_timer_task_stop t later)).counter ≡ ((tim t s).counter + d / 2 ^ q) % 2 ^ 32)
        × ((tim t (nrf_timer_task_stop t later)).running ≡ false)
  task_start-task_stop t d q s later stopped timing presc small fits clock same =
      let m = tim t s in
      let X = m.counter * 2 ^ q in
      let on = started-IsSameCount t s stopped timing in
      let n = tim t later in
      let running : n.running ≡ true = ap (λ (x : Tim). x.running) same ∙ on.running in
      let mode : n.mode ≡ 0 = ap (λ (x : Tim). x.mode) same ∙ on.mode ∙ timing in
      let n_presc : n.prescaler ≡ q + 4 =
        ap (λ (x : Tim). x.prescaler) same ∙ on.prescaler ∙ presc in
      let begun : n.start_t ≡ sub64 s.now X =
        ap (λ (x : Tim). x.start_t) same
        ∙ on.start_t
        ∙ ap (sub64 s.now) (counter_to_time-exact m.counter q m presc (omega arith)) in
      let stop = stopped-counter t later running mode in
      let elapsed : sub64 later.now n.start_t ≡ d + X = omega (arith, begun, clock, fits, small) in
      let count : time_to_counter (d + X) n ≡ (d + X) / 2 ^ q % 2 ^ 32 =
        time_to_counter-exact (d + X) q n n_presc small in
      let whole : (d + X) / 2 ^ q ≡ d / 2 ^ q + m.counter =
        add-mul-div_right d m.counter (one-le-pow q 2 (omega arith)) in
      (stop.0 ∙ ap (λ (x : ℕ). time_to_counter x n) elapsed ∙ count ∙ omega (arith, whole), stop.1)
