-- ===== src/RadioLaws/Ready.antt =====
-- src/HW_models/NRF_RADIO.c: from TXEN or RXEN to the end of the ramp-up.
use ext_nrf52_hw_models.Common.{
  ℕ, ◌≡◌, refl, ◌∙◌, ap, true, false, if_intro, List, [], ◌∷◌, nonzero, bit_and, update, add64,
  arith,
}
use ext_nrf52_hw_models.Common.Bits.{bit_and-le}
use ext_nrf52_hw_models.Soc.{
  Soc, Radio, Ppi, RadioShort, RadioState, rad_txru, rad_rxru, rad_txidle, rad_rxidle, tifs_disable,
}
use ext_nrf52_hw_models.Soc.Env.{Env}
use ext_nrf52_hw_models.IrqLaws.Apart.{set_irq-apart}
use ext_nrf52_hw_models.RadioLaws.Disable.{Side, transmitter, receiver}
use ext_nrf52_hw_models.PpiLaws.Idle.{IsUnheard, IgnoresUnheard}
use ext_nrf52_hw_models.TopLaws.Scheduled.{IsApart, find_next-apart}
use ext_nrf52_hw_models.Radio.{
  state_value, with_radio, enter, has_radio_short, nrfra_set_timer_radio, may_ramp_up,
  with_tifs_state, nrfra_timings_get_rampup_time, nrfra_is_hw_tifs_enabled, nrf_radio_tasks_txen,
  nrf_radio_tasks_rxen, raise_radio_event, raise_radio_irq, run_shorts, signal,
  nrf_radio_signal_ready, nrf_radio_signal_txready, nrf_radio_signal_rxready, expiry,
  nrf_radio_timer_triggered,
}

nothing_set : (mask : ℕ) → nonzero (bit_and 0 mask) ≡ false
nothing_set mask =
    let e : bit_and 0 mask ≡ 0 = omega (arith, bit_and-le 0 0 mask (omega arith)) in ap nonzero e

-- The states on the way up, and at its end, and the event there beside READY.
abbrev ramping_up : Side → RadioState
ramping_up transmitter = rad_txru
ramping_up receiver = rad_rxru

abbrev pub idle : Side → RadioState
idle transmitter = rad_txidle
idle receiver = rad_rxidle

abbrev pub ready_event : Side → ℕ
ready_event transmitter = 24
ready_event receiver = 25

abbrev begun : Side → Soc → Soc
begun transmitter s = enter rad_txru s
begun receiver s = enter rad_rxru (with_tifs_state tifs_disable s)

begun-state : (side : Side) (s : Soc) → (begun side s).radio.fsm.radio_state ≡ ramping_up side
begun-state transmitter s = refl
begun-state receiver s = refl

begun-shorts : (side : Side) (s : Soc) → (begun side s).radio.shorts ≡ s.radio.shorts
begun-shorts transmitter s = refl
begun-shorts receiver s = refl

-- What the ramp-up sets and reads.
abbrev view : Soc → Radio × Ppi
view s = (s.radio, s.ppi)

view-IsApart : IsApart view
view-IsApart = record { apart = λ s c m n k h. refl }

abbrev timed_view : Soc → ℕ × (Radio × Ppi)
timed_view s = (s.timer_radio, view s)

timed_view-IsApart : IsApart timed_view
timed_view-IsApart = record { apart = λ s c m n k h. refl }

set_timer-view : (t : ℕ) (s : Soc) → timed_view (nrfra_set_timer_radio t s) ≡ (t, (s.radio, s.ppi))
unfolding nrfra_set_timer_radio
set_timer-view t s = find_next-apart timed_view timed_view-IsApart (record s { timer_radio = t })

-- No enabled channel listens to the two events of the end of a ramp-up.
abbrev pub AreUnheard : Side → Ppi → Type 0
AreUnheard side p = IsUnheard 6 p × IsUnheard (ready_event side) p

module _ ⦃env : Env⦄ where
  run_shorts-none :
      (shorts : List (RadioShort × (Soc → Soc))) (s : Soc)
      → s.radio.shorts ≡ 0
      → run_shorts shorts s ≡ s
  unfolding run_shorts
  run_shorts-none [] s none_set = refl
  run_shorts-none ((short, task) ∷ rest) s none_set =
      let off : has_radio_short short s.radio ≡ false =
        rw none_set (nothing_set (env.mdk.radio_shorts_msk short)) in
      rw off (run_shorts-none rest s none_set)

  -- What a signal leaves: its event.
  signalled : ℕ → Radio → Radio
  signalled event r = record r { events = update r.events event 1 }

  raise_irq-view : (event : ℕ) (s : Soc) → view (raise_radio_irq event s) ≡ view s
  unfolding raise_radio_irq
  raise_irq-view event s =
      if_intro (λ (t : Soc). view t ≡ view s)
        (nonzero (bit_and s.radio.inten (env.mdk.radio_intenset_msk event)))
        (set_irq-apart view view-IsApart env.mdk.radio_irqn s) refl

  module _ (ignores : IgnoresUnheard env) where
    signal-view :
        (event : ℕ) (shorts : List (RadioShort × (Soc → Soc))) (s : Soc) (r : Radio) (p : Ppi)
        → view s ≡ (r, p)
        → r.shorts ≡ 0
        → IsUnheard event p
        → view (signal event shorts s) ≡ (signalled event r, p)
    unfolding signal signalled raise_radio_event
    signal-view event shorts s r p e none_set unheard =
        let raised = with_radio (record (s.radio) { events = update s.radio.events event 1 }) s in
        let here : IsUnheard event s.ppi =
          ap (λ (v : Radio × Ppi). bit_and (v.1.evt_to_ch event) v.1.chen) e ∙ unheard in
        let quiet : raise_radio_event event s ≡ raised = ignores.ignored event raised here in
        let shorts_off = ap (λ (v : Radio × Ppi). v.0.shorts) e ∙ none_set in
        raise_irq-view event (run_shorts shorts (raise_radio_event event s))
        ∙ ap (λ (t : Soc). view (run_shorts shorts t)) quiet
        ∙ ap view (run_shorts-none shorts raised shorts_off)
        ∙ ap (λ (v : Radio × Ppi). (signalled event v.0, v.1)) e

    -- READY, and then the event of the side.
    signals-view :
        (first second : List (RadioShort × (Soc → Soc))) (event : ℕ) (s : Soc) (r : Radio) (p : Ppi)
        → view s ≡ (r, p)
        → r.shorts ≡ 0
        → IsUnheard 6 p
        → IsUnheard event p
        → (signal event second (signal 6 first s)).radio ≡ signalled event (signalled 6 r)
    unfolding signalled
    signals-view first second event s r p e none_set ready own =
        ap (λ (v : Radio × Ppi). v.0)
          (signal-view event second (signal 6 first s) (signalled 6 r) p
            (signal-view 6 first s r p e none_set ready) none_set own)

    expiry-radio :
        (side : Side) (s : Soc)
        → s.radio.fsm.radio_state ≡ ramping_up side
        → s.radio.shorts ≡ 0
        → AreUnheard side s.ppi
        → (nrf_radio_timer_triggered s).radio
          ≡ signalled (ready_event side) (signalled 6 (enter (idle side) s).radio)
    unfolding nrf_radio_timer_triggered expiry nrf_radio_signal_ready nrf_radio_signal_txready
        nrf_radio_signal_rxready
    expiry-radio transmitter s e none_set unheard =
        let u = enter rad_txidle s in
        rw e (
          signals-view _ _ 24 (nrfra_set_timer_radio env.time_never u) u.radio s.ppi
            (ap (λ v. v.1) (set_timer-view env.time_never u)) none_set unheard.0 unheard.1)
    expiry-radio receiver s e none_set unheard =
        let u = enter rad_rxidle s in
        rw e (
          signals-view _ _ 25 (nrfra_set_timer_radio env.time_never u) u.radio s.ppi
            (ap (λ v. v.1) (set_timer-view env.time_never u)) none_set unheard.0 unheard.1)

  abbrev pub enable : Side → Soc → Soc
  enable transmitter s = nrf_radio_tasks_txen s
  enable receiver s = nrf_radio_tasks_rxen s

  abbrev pub ramp_up_time : Side → Radio → ℕ
  ramp_up_time transmitter r = nrfra_timings_get_rampup_time true r.fsm.from_hw_tifs r
  ramp_up_time receiver r = nrfra_timings_get_rampup_time false r.fsm.from_hw_tifs r

  -- What the start of the ramp-up sets: its end, and the radio.
  enable-set :
      (side : Side) (s : Soc)
      → may_ramp_up s ≡ true
      → timed_view (enable side s)
        ≡ (add64 s.now (ramp_up_time side s.radio), ((begun side s).radio, s.ppi))
  unfolding nrf_radio_tasks_txen nrf_radio_tasks_rxen nrfra_timings_get_rampup_time
      nrfra_is_hw_tifs_enabled
  enable-set transmitter s may = rw may (set_timer-view _ (begun transmitter s))
  enable-set receiver s may = rw may (set_timer-view _ (begun receiver s))

  -- STATE and radio_state are idle on the side, and its two events stand beside those of before.
  abbrev pub IsReady : Side → (events : ℕ → ℕ) → Soc → Type 0
  IsReady side events t =
      (t.radio.fsm.radio_state ≡ idle side)
      × ((t.radio.state ≡ state_value (idle side))
          × (t.radio.events ≡ update (update events 6 1) (ready_event side) 1))

  arrived-IsReady :
      (side : Side) (s u t : Soc)
      → u.radio ≡ (begun side s).radio
      → t.radio ≡ signalled (ready_event side) (signalled 6 (enter (idle side) u).radio)
      → IsReady side s.radio.events t
  unfolding signalled
  arrived-IsReady transmitter s u t b e = (
    ap (λ (r : Radio). r.fsm.radio_state) e,
    (
      ap (λ (r : Radio). r.state) e,
      ap (λ (r : Radio). r.events) e ∙ ap (λ (r : Radio). update (update r.events 6 1) 24 1) b,
    ),
  )
  arrived-IsReady receiver s u t b e = (
    ap (λ (r : Radio). r.fsm.radio_state) e,
    (
      ap (λ (r : Radio). r.state) e,
      ap (λ (r : Radio). r.events) e ∙ ap (λ (r : Radio). update (update r.events 6 1) 25 1) b,
    ),
  )

  -- If an event that no enabled channel listens to does nothing: TXEN or RXEN in a state that allows it
  -- (DISABLED, TXIDLE or RXIDLE), with no short set and no enabled PPI channel that listens to the side's two
  -- events, sets Timer_RADIO to the end of the ramp-up, counted from now; and its expiry, at whatever time,
  -- leaves the radio idle on that side, in radio_state and in STATE, with READY and the side's TXREADY or
  -- RXREADY raised and no other event changed.
  pub enable-IsReady :
      (ignores : IgnoresUnheard env) (side : Side) (s : Soc) (time : ℕ)
      → may_ramp_up s ≡ true
      → s.radio.shorts ≡ 0
      → AreUnheard side s.ppi
      → ((enable side s).timer_radio ≡ add64 s.now (ramp_up_time side s.radio))
        × IsReady side s.radio.events
            (nrf_radio_timer_triggered (record (enable side s) { now = time }))
  enable-IsReady ignores side s time may none_set unheard =
      let e = enable-set side s may in
      let b = ap (λ v. v.1.0) e in
      let u = record (enable side s) { now = time } in
      let st = ap (λ (r : Radio). r.fsm.radio_state) b ∙ begun-state side s in
      let sh = ap (λ (r : Radio). r.shorts) b ∙ begun-shorts side s ∙ none_set in
      let quiet : AreUnheard side u.ppi = rw (ap (λ v. v.1.1) e) unheard in
      (
        ap (λ v. v.0) e,
        arrived-IsReady side s u (nrf_radio_timer_triggered u) b
            (expiry-radio ignores side u st sh quiet),
      )
