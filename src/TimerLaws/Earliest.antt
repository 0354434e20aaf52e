-- ===== src/TimerLaws/Earliest.antt =====
-- update_master_timer of src/HW_models/NRF_TIMER.c: the earliest of all the running channels.
use ext_nrf52_hw_models.Common.{
  ℕ, ◌+◌, ◌≤◌, ◌<◌, ◌≡◌, refl, ◌⊎◌, true, false, ltb, if◌then◌else◌, Bool-cases, inl, inr, ◌∙◌,
  ltb→lt, ltb→le, arith, for_range_inv,
}
use ext_nrf52_hw_models.Soc.{Tim, Timers}
use ext_nrf52_hw_models.Soc.Env.{Env}
use ext_nrf52_hw_models.Timer.{earliest_cc, earliest_match, is_timing, timer_n_ccs, n_timers}

-- r is where the search started or a match of the first t instances, and none of theirs is earlier.
pub record IsLeastMatch (ts : Timers) (start t r : ℕ) : Type 0 where
  pub attained :
      (r ≡ start)
      ⊎ ((u : ℕ) × (cc : ℕ) × (u < t)
          × (cc < timer_n_ccs u)
          × (is_timing (ts.inst u) ≡ true)
          × (r ≡ (ts.inst u).cc_timers cc))
  pub below_start : r ≤ start
  pub below_each :
      (u cc : ℕ)
      → u < t
      → cc < timer_n_ccs u
      → is_timing (ts.inst u) ≡ true
      → r ≤ (ts.inst u).cc_timers cc

-- The least over the first n channels of one instance, where the search starts from `start`.
record IsLeastCc (m : Tim) (start n r : ℕ) : Type 0 where
  attained : (r ≡ start) ⊎ ((cc : ℕ) × (cc < n) × (r ≡ m.cc_timers cc))
  below_start : r ≤ start
  below_each : (k : ℕ) → k < n → r ≤ m.cc_timers k

module _ ⦃env : Env⦄ where
  IsLeastCc-step :
      (m : Tim) (start k r : ℕ)
      → IsLeastCc m start k r
      → IsLeastCc m start (k + 1) (if ltb (m.cc_timers k) r then m.cc_timers k else r)
  IsLeastCc-step m start k r h = elim (Bool-cases (ltb (m.cc_timers k) r)) [
    | inl less ↦ rw less (record {
      attained = inr (k, omega arith, refl);
      below_start = omega (arith, h.below_start, ltb→lt _ _ less);
      below_each = λ j below. elim (Bool-cases (ltb j k)) [
        | inl old ↦ omega (arith, h.below_each j (ltb→lt _ _ old), ltb→lt _ _ less)
        | inr new ↦ let here : j ≡ k = omega (arith, ltb→le _ _ new) in rw here (omega arith)
      ];
    })
    | inr not_less ↦ rw not_less (record {
      attained = elim h.attained [ inl e ↦ inl e | inr p ↦ inr (p.0, omega (arith, p.1), p.2) ];
      below_start = h.below_start;
      below_each = λ j below. elim (Bool-cases (ltb j k)) [
        | inl old ↦ h.below_each j (ltb→lt _ _ old)
        | inr new ↦
            let here : j ≡ k = omega (arith, ltb→le _ _ new) in rw here (ltb→le _ _ not_less)
      ];
    })
  ]

  earliest_cc-IsLeastCc :
      (n : ℕ) (m : Tim) (start : ℕ) → IsLeastCc m start n (earliest_cc n m start)
  unfolding earliest_cc
  earliest_cc-IsLeastCc n m start =
      for_range_inv (IsLeastCc m start)
        (λ cc least. if ltb (m.cc_timers cc) least then m.cc_timers cc else least)
        (IsLeastCc-step m start) n 0 n start (omega arith)
        (record {
          attained = inl refl;
          below_start = omega arith;
          below_each = λ k below. absurd (omega arith);
        })

  IsLeastMatch-skip :
      (ts : Timers) (start t r : ℕ)
      → is_timing (ts.inst t) ≡ false
      → IsLeastMatch ts start t r
      → IsLeastMatch ts start (t + 1) r
  IsLeastMatch-skip ts start t r off h = record {
    attained = elim h.attained [
      | inl e ↦ inl e
      | inr p ↦ inr (p.0, p.1, omega (arith, p.2), p.3, p.4, p.5)
    ];
    below_start = h.below_start;
    below_each = λ u cc below real on. elim (Bool-cases (ltb u t)) [
      | inl old ↦ h.below_each u cc (ltb→lt _ _ old) real on
      | inr new ↦
          let here : u ≡ t = omega (arith, ltb→le _ _ new) in
          let same : is_timing (ts.inst t) ≡ true = rw here at on in absurd (ground arith)
    ];
  }

  IsLeastMatch-take :
      (ts : Timers) (start t r : ℕ)
      → is_timing (ts.inst t) ≡ true
      → IsLeastMatch ts start t r
      → IsLeastMatch ts start (t + 1) (earliest_cc (timer_n_ccs t) (ts.inst t) r)
  IsLeastMatch-take ts start t r on h =
      let least = earliest_cc-IsLeastCc (timer_n_ccs t) (ts.inst t) r in
      record {
        attained = elim least.attained [
          | inl e ↦ elim h.attained [
            | inl e' ↦ inl (e ∙ e')
            | inr p ↦ inr (p.0, p.1, omega (arith, p.2), p.3, p.4, e ∙ p.5)
          ]
          | inr p ↦ inr (t, p.0, omega arith, p.1, on, p.2)
        ];
        below_start = omega (arith, least.below_start, h.below_start);
        below_each = λ u cc below real timing. elim (Bool-cases (ltb u t)) [
          | inl old ↦
              omega (arith, least.below_start, h.below_each u cc (ltb→lt _ _ old) real timing)
          | inr new ↦
              let here : u ≡ t = omega (arith, ltb→le _ _ new) in
              rw here (least.below_each cc (rw here at real))
        ];
      }

  -- earliest_match, the value that update_master_timer gives Timer_TIMERs, is TIME_NEVER or the time of a
  -- match of an instance that runs in timer mode, and no later than TIME_NEVER and any such match.
  pub earliest_match-IsLeastMatch :
      (ts : Timers) → IsLeastMatch ts env.time_never n_timers (earliest_match ts)
  unfolding earliest_match
  earliest_match-IsLeastMatch ts =
      for_range_inv (IsLeastMatch ts env.time_never)
        (λ t least.
          if is_timing (ts.inst t) then earliest_cc (timer_n_ccs t) (ts.inst t) least else least)
        (λ t r h. elim (Bool-cases (is_timing (ts.inst t))) [
          | inl on ↦ rw on (IsLeastMatch-take ts env.time_never t r on h)
          | inr off ↦ rw off (IsLeastMatch-skip ts env.time_never t r off h)
        ])
        n_timers 0 n_timers env.time_never (omega arith)
        (record {
          attained = inl refl;
          below_start = omega arith;
          below_each = λ u cc below real on. absurd (omega arith);
        })
