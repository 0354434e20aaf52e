-- ===== src/ClockLaws/Expiry.antt =====
-- The expiry of the timer of src/HW_models/NRF_CLOCK.c, where no enabled channel of the PPI listens.
use ext_nrf52_hw_models.Common.{
  ℕ, ◌≡◌, ◌≢◌, ◌≤◌, refl, sym, ◌∙◌, ap, Bool, true, false, not, ◌&&◌, ◌||◌, ◌==◌, ==_refl, ==_iff,
  if◌then◌else◌, if_intro, Bool-cases, inl, inr, arith,
}
use ext_nrf52_hw_models.Soc.{Soc, Clock, Ppi, stopped, starting, started}
use ext_nrf52_hw_models.Soc.Env.{Env}
use ext_nrf52_hw_models.PpiLaws.Idle.{IgnoresUnheard}
use ext_nrf52_hw_models.TopLaws.Scheduled.{find_next-apart}
use ext_nrf52_hw_models.IrqLaws.Apart.{raise-apart, lower-apart}
use ext_nrf52_hw_models.Rtc.{nrf_rtc_notify_first_lf_tick, time_fits}
use ext_nrf52_hw_models.Clock.{
  ClockEvent, hfclkstarted, lfclkstarted, done, ctto, with_clock, is_stopped, is_starting,
  is_started, is_stopping, set_event, wants_interrupt, nrf_clock_update_master_timer,
  nrf_clock_eval_interrupt, nrf_clock_event, nrf_clock_tasks_hfclkstart, nrf_clock_timer_triggered,
  nrf_clock_lf_timer_triggered, nrf_clock_hf_timer_triggered, nrf_clock_lf_cal_triggered,
  nrf_clock_caltimer_triggered,
}
use ext_nrf52_hw_models.ClockLaws.Pending.{
  clock-IsApart, earliest, IsPending, IsWell, IsQuiet, update-ppi, event_lem,
}

abbrev pub timers : Clock → ℕ × (ℕ × (ℕ × ℕ))
timers c = (c.timer_hf, (c.timer_lf, (c.timer_lf_cal, c.timer_caltimer)))

module _ ⦃env : Env⦄ where
  -- The first that is due, in this order, is off.
  abbrev pub expired : Clock → ℕ × (ℕ × (ℕ × ℕ))
  expired c =
      if c.timer == c.timer_hf
      then (env.time_never, (c.timer_lf, (c.timer_lf_cal, c.timer_caltimer)))
      else if c.timer == c.timer_lf
      then (c.timer_hf, (env.time_never, (c.timer_lf_cal, c.timer_caltimer)))
      else if c.timer == c.timer_lf_cal
      then (c.timer_hf, (c.timer_lf, (env.time_never, c.timer_caltimer)))
      else (c.timer_hf, (c.timer_lf, (c.timer_lf_cal, env.time_never)))

  -- No enabled channel listens to the events of the expiries.
  abbrev pub ExpiriesAreQuiet : Ppi → Type 0
  ExpiriesAreQuiet p =
      (IsQuiet hfclkstarted p × IsQuiet lfclkstarted p) × (IsQuiet done p × IsQuiet ctto p)

  -- The end of the calibration timer's interval.
  abbrev caltimer_ends : Soc → Soc
  caltimer_ends s = nrf_clock_event ctto (
      nrf_clock_update_master_timer (
        with_clock (record (s.clock) { caltimer_state = stopped; timer_caltimer = env.time_never })
          s))

  notify-clock : (s : Soc) → (nrf_rtc_notify_first_lf_tick s).clock ≡ s.clock
  unfolding nrf_rtc_notify_first_lf_tick
  notify-clock s = if_intro (λ (t : Soc). t.clock ≡ s.clock) (time_fits s.now) refl refl

  -- The timers are these, and agree with the states.
  abbrev Has : ℕ × (ℕ × (ℕ × ℕ)) → Clock → Type 0
  Has left c = IsWell c × (timers c ≡ left)

  update-Has :
      (left : ℕ × (ℕ × (ℕ × ℕ))) (s : Soc)
      → IsPending s.clock
      → timers s.clock ≡ left
      → Has left (nrf_clock_update_master_timer s).clock
  unfolding nrf_clock_update_master_timer
  update-Has left s p e = rw (find_next-apart (λ (t : Soc). t.clock) clock-IsApart _) ((p, refl), e)

  module _ (ignores : IgnoresUnheard env) where
    -- An event changes its register and the line.
    event-has :
        (P : Clock → Type 0) (e : ClockEvent) (s : Soc) (p : Ppi)
        → s.ppi ≡ p
        → IsQuiet e p
        → ((c : Clock) (line : Bool) → P c → P (record c { int_line = line }))
        → P (set_event e s.clock)
        → P (nrf_clock_event e s).clock
    unfolding nrf_clock_eval_interrupt
    event-has P e s p same quiet line h =
        let c = set_event e s.clock in
        rw (event_lem ignores e s p same quiet) (
          if_intro (λ (t : Soc). P t.clock) (not c.int_line && wants_interrupt c)
            (rw (raise-apart (λ (t : Soc). t.clock) clock-IsApart _ _) (line c true h))
            (if_intro (λ (t : Soc). P t.clock) (c.int_line && not (wants_interrupt c))
              (rw (lower-apart (λ (t : Soc). t.clock) clock-IsApart _ _) (line c false h)) h))

    hf-Has :
        (s : Soc)
        → IsWell s.clock
        → IsQuiet hfclkstarted s.ppi
        → Has (env.time_never, (timers s.clock).1) (nrf_clock_hf_timer_triggered s).clock
    unfolding nrf_clock_hf_timer_triggered
    hf-Has s w quiet =
        let left : ℕ × (ℕ × (ℕ × ℕ)) = (env.time_never, (timers s.clock).1) in
        let P : Clock → Type 0 = λ c.
          IsPending (record c { timer_hf = env.time_never })
          × ((timers c).1 ≡ (timers s.clock).1) in
        let idle = ==_refl env.time_never in
        elim (Bool-cases (is_starting s.clock.hf_state)) [
          | inl on ↦
              let h =
                event-has P hfclkstarted _ s.ppi refl quiet (λ c line p. p)
                  ((rw idle refl, w.0.1, w.0.2), refl) in
              rw on (update-Has left _ h.0 (ap (λ t. (env.time_never, t)) h.1))
          | inr not_on ↦ elim (Bool-cases (is_stopping s.clock.hf_state)) [
            | inl off ↦ rw (not_on, off) (update-Has left _ (rw idle refl, w.0.1, w.0.2) refl)
            | inr not_off ↦
                rw (not_on, not_off)
                  (update-Has left _ (rw (not_on, not_off, idle) refl, w.0.1, w.0.2) refl)
          ]
        ]

    lf-Has :
        (s : Soc)
        → IsWell s.clock
        → IsQuiet lfclkstarted s.ppi
        → Has
            (s.clock.timer_hf, (env.time_never, (timers s.clock).1.1))
            (nrf_clock_lf_timer_triggered s).clock
    unfolding nrf_clock_lf_timer_triggered
    lf-Has s w quiet =
        let left : ℕ × (ℕ × (ℕ × ℕ)) = (s.clock.timer_hf, (env.time_never, (timers s.clock).1.1)) in
        let P : Clock → Type 0 =
          λ c. IsPending c × (timers (record c { timer_lf = env.time_never }) ≡ left) in
        let h =
          if_intro (λ (t : Soc). P t.clock) (is_starting s.clock.lf_state)
            (rw (notify-clock _)
              (event-has P lfclkstarted _ s.ppi refl quiet (λ c line p. p) (w.0, refl)))
            (if_intro (λ (t : Soc). P t.clock) (is_stopping s.clock.lf_state) (w.0, refl)
              (w.0, refl)) in
        update-Has left _ h.0 h.1

    lf_cal-Has :
        (s : Soc)
        → IsWell s.clock
        → IsQuiet done s.ppi
        → Has
            (s.clock.timer_hf, (s.clock.timer_lf, (env.time_never, s.clock.timer_caltimer)))
            (nrf_clock_lf_cal_triggered s).clock
    unfolding nrf_clock_lf_cal_triggered
    lf_cal-Has s w quiet =
        let left : ℕ × (ℕ × (ℕ × ℕ)) =
          (s.clock.timer_hf, (s.clock.timer_lf, (env.time_never, s.clock.timer_caltimer))) in
        event-has (Has left) done _ s.ppi (update-ppi _) quiet (λ c line p. p)
          (update-Has left _ (w.0.0, rw (==_refl env.time_never) refl, w.0.2) refl)

    caltimer-Has :
        (s : Soc)
        → IsWell s.clock
        → IsQuiet ctto s.ppi
        → Has
            (s.clock.timer_hf, (s.clock.timer_lf, (s.clock.timer_lf_cal, env.time_never)))
            (caltimer_ends s).clock
    caltimer-Has s w quiet =
        let left : ℕ × (ℕ × (ℕ × ℕ)) =
          (s.clock.timer_hf, (s.clock.timer_lf, (s.clock.timer_lf_cal, env.time_never))) in
        event-has (Has left) ctto _ s.ppi (update-ppi _) quiet (λ c line p. p)
          (update-Has left _ (w.0.0, w.0.1, rw (==_refl env.time_never) refl) refl)

    -- A timer that is none of the other three is the calibration timer's, which has started.
    caltimer_due :
        (c : Clock)
        → IsWell c
        → c.timer ≢ env.time_never
        → (c.timer == c.timer_hf) ≡ false
        → (c.timer == c.timer_lf) ≡ false
        → (c.timer == c.timer_lf_cal) ≡ false
        → ((c.timer == c.timer_caltimer) ≡ true) × (is_started c.caltimer_state ≡ true)
    caltimer_due c w due not_hf not_lf not_cal =
        let least = w.1 in
        let same : c.timer ≡ c.timer_caltimer = ground arith in
        let set : (c.timer_caltimer == env.time_never) ≡ false = ground arith in
        ((==_iff _ _).1 same, w.0.2 ∙ ap not set)

    caltimer_triggered_lem :
        (s : Soc)
        → is_started s.clock.caltimer_state ≡ true
        → nrf_clock_caltimer_triggered s ≡ caltimer_ends s
    unfolding nrf_clock_caltimer_triggered
    caltimer_triggered_lem s on = rw on refl

    -- If an event that no enabled channel listens to does nothing, none listens to the four events of the
    -- expiries, the timers of the HF clock, of the calibration and of the calibration timer are set exactly
    -- while these have something to come, and the model's timer is the earliest of the four and set: its
    -- expiry takes away the first timer that is due, in the order HF clock, LF clock, calibration, calibration
    -- timer, and leaves the other three as they are, so that neither programming error is reached; and it
    -- keeps the agreement, in which the LF clock's state has no part.
    pub timer_triggered-IsWell :
        (s : Soc)
        → IsWell s.clock
        → ExpiriesAreQuiet s.ppi
        → s.clock.timer ≢ env.time_never
        → let c = (nrf_clock_timer_triggered s).clock in IsWell c × (timers c ≡ expired s.clock)
    unfolding nrf_clock_timer_triggered
    timer_triggered-IsWell s w quiet due = elim (Bool-cases (s.clock.timer == s.clock.timer_hf)) [
      | inl hf ↦ rw hf (hf-Has s w quiet.0.0)
      | inr not_hf ↦ elim (Bool-cases (s.clock.timer == s.clock.timer_lf)) [
        | inl lf ↦ rw (not_hf, lf) (lf-Has s w quiet.0.1)
        | inr not_lf ↦ elim (Bool-cases (s.clock.timer == s.clock.timer_lf_cal)) [
          | inl by_cal ↦ rw (not_hf, not_lf, by_cal) (lf_cal-Has s w quiet.1.0)
          | inr not_cal ↦
              let is_due = caltimer_due s.clock w due not_hf not_lf not_cal in
              rw (not_hf, not_lf, not_cal, is_due.0, caltimer_triggered_lem s is_due.1)
                (caltimer-Has s w quiet.1.1)
        ]
      ]
    ]

    hf_triggered_lem :
        (s : Soc)
        → is_starting s.clock.hf_state ≡ true
        → IsQuiet hfclkstarted s.ppi
        → let c = (nrf_clock_hf_timer_triggered s).clock in
          (c.hf_state ≡ started) × (c.ev_hfclkstarted ≡ 1) × (c.timer_hf ≡ env.time_never)
    unfolding nrf_clock_hf_timer_triggered nrf_clock_update_master_timer
    hf_triggered_lem s on quiet =
        let P : Clock → Type 0 = λ c. (c.hf_state ≡ started) × (c.ev_hfclkstarted ≡ 1) in
        let event = event-has P hfclkstarted _ s.ppi refl quiet (λ c line p. p) (refl, refl) in
        rw on (rw (find_next-apart (λ (t : Soc). t.clock) clock-IsApart _) (event.0, event.1, refl))

    hfclkstart_lem :
        (s : Soc)
        → (is_stopped s.clock.hf_state || is_stopping s.clock.hf_state) ≡ true
        → (s.now ≤ s.clock.timer_lf)
          × (s.now ≤ s.clock.timer_lf_cal)
          × (s.now ≤ s.clock.timer_caltimer)
        → let t = nrf_clock_tasks_hfclkstart s in
          let c = t.clock in
          ((c.timer ≡ s.now) × (c.timer_hf ≡ s.now) × (c.hf_state ≡ starting)) × (t.ppi ≡ s.ppi)
    unfolding nrf_clock_tasks_hfclkstart nrf_clock_update_master_timer
    hfclkstart_lem s off ahead =
        let least : earliest (record (s.clock) { timer_hf = s.now }) ≡ s.now = ground arith in
        rw off (
          rw (find_next-apart (λ (t : Soc). t.clock) clock-IsApart _) (least, refl, refl),
          update-ppi (
              with_clock
                (record (s.clock) {
                  hf_state = starting;
                  hfclkrun = env.mdk.clock_hfclkrun_status_msk;
                  timer_hf = s.now;
                })
                s),
        )

    -- If an event that no enabled channel listens to does nothing, none listens to HFCLKSTARTED, the HF clock
    -- is stopped or stopping and none of the other three timers is behind: HFCLKSTART sets the model's timer
    -- to this moment, and its expiry leaves the clock started, with its event raised and its timer off.
    pub hfclkstart-started :
        (s : Soc)
        → IsQuiet hfclkstarted s.ppi
        → (is_stopped s.clock.hf_state || is_stopping s.clock.hf_state) ≡ true
        → (s.now ≤ s.clock.timer_lf)
          × (s.now ≤ s.clock.timer_lf_cal)
          × (s.now ≤ s.clock.timer_caltimer)
        → let s' = nrf_clock_tasks_hfclkstart s in
          let c = (nrf_clock_timer_triggered s').clock in
          (s'.clock.timer ≡ s.now)
          × (c.hf_state ≡ started)
          × (c.ev_hfclkstarted ≡ 1)
          × (c.timer_hf ≡ env.time_never)
    unfolding nrf_clock_timer_triggered
    hfclkstart-started s quiet off ahead =
        let started_at = hfclkstart_lem s off ahead in
        let set = started_at.0 in
        let by_hf : ((nrf_clock_tasks_hfclkstart s).clock.timer
              == (nrf_clock_tasks_hfclkstart s).clock.timer_hf)
            ≡ true =
          (==_iff _ _).1 (set.0 ∙ sym set.1) in
        let run =
          hf_triggered_lem (nrf_clock_tasks_hfclkstart s) (ap is_starting set.2)
            (rw started_at.1 quiet) in
        rw by_hf (set.0, run.0, run.1, run.2)
