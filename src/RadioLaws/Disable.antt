-- ===== src/RadioLaws/Disable.antt =====
-- nrf_radio_tasks_DISABLE of src/HW_models/NRF_RADIO.c: the ramp-down.
use ext_nrf52_hw_models.Common.{
  ℕ, ◌≡◌, refl, ◌∙◌, ap, false, Option, none, some, not, ◌==◌, if_intro, add64,
}
use ext_nrf52_hw_models.Soc.{
  Soc, Radio, RadioState, rad_disabled, rad_rxru, rad_rxidle, rad_rx, rad_rxdisable, rad_txru,
  rad_txidle, rad_txstarting, rad_tx, rad_txdisable, rad_cca_ed, tifs_disable,
}
use ext_nrf52_hw_models.Soc.Env.{Env}
use ext_nrf52_hw_models.Top.{nrf_hw_find_next_timer_to_trigger}
use ext_nrf52_hw_models.TopLaws.Scheduled.{IsApart, find_next-apart}
use ext_nrf52_hw_models.Radio.{
  state_value, with_radio, enter, nrfra_set_timer_radio, abort_if_needed,
  nrf_radio_stop_bit_counter, stop_activity, give_up_tifs, is_tifs_disabled, with_tifs_state,
  ramp_down, nrf_radio_tasks_disable, nrfra_timings_get_tx_rampdown_time,
  nrfra_timings_get_rx_rampdown_time,
}

-- What the ramp-down depends on.
abbrev seen : Soc → ℕ × (ℕ × RadioState)
seen s = (s.now, (s.radio.mode, s.radio.fsm.radio_state))

seen-IsApart : IsApart seen
seen-IsApart = record { apart = λ s c m n k h. refl }

-- What it sets.
abbrev set : Soc → ℕ × Radio
set s = (s.timer_radio, s.radio)

set-IsApart : IsApart set
set-IsApart = record { apart = λ s c m n k h. refl }

set_timer-seen : (t : ℕ) (s : Soc) → seen (nrfra_set_timer_radio t s) ≡ seen s
unfolding nrfra_set_timer_radio
set_timer-seen t s = find_next-apart seen seen-IsApart (record s { timer_radio = t })

set_timer-set : (t : ℕ) (s : Soc) → set (nrfra_set_timer_radio t s) ≡ (t, s.radio)
unfolding nrfra_set_timer_radio
set_timer-set t s = find_next-apart set set-IsApart (record s { timer_radio = t })

-- The state after what goes on has been stopped.
abbrev halted : RadioState → RadioState
halted rad_tx = rad_txidle
halted rad_txstarting = rad_txidle
halted rad_rx = rad_rxidle
halted rad_cca_ed = rad_rxidle
halted state = state

-- The side of the radio that is on, or on its way.
pub data Side : Type 0 where
  transmitter : Side
  receiver : Side

abbrev pub active_side : RadioState → Option Side
active_side rad_txru = some transmitter
active_side rad_txidle = some transmitter
active_side rad_txstarting = some transmitter
active_side rad_tx = some transmitter
active_side rad_rxru = some receiver
active_side rad_rxidle = some receiver
active_side rad_rx = some receiver
active_side rad_cca_ed = some receiver
active_side rad_disabled = none
active_side rad_txdisable = none
active_side rad_rxdisable = none

abbrev pub ramping_down : Side → RadioState
ramping_down transmitter = rad_txdisable
ramping_down receiver = rad_rxdisable

module _ ⦃env : Env⦄ where
  stop_bit_counter-seen : (s : Soc) → seen (nrf_radio_stop_bit_counter s) ≡ seen s
  unfolding nrf_radio_stop_bit_counter
  stop_bit_counter-seen s =
      let P : Soc → Type 0 = λ t. seen t ≡ seen s in
      let off = with_radio (record (s.radio) { bit_counter_running = false }) s in
      let quiet = record off { timer_radio_bitcounter = env.time_never } in
      if_intro P (not s.radio.bit_counter_running) {x = s} refl (
        if_intro P (not (s.timer_radio_bitcounter == env.time_never))
          {x = nrf_hw_find_next_timer_to_trigger quiet} {y = off}
          (find_next-apart seen seen-IsApart quiet) refl)

  stop_activity-seen :
      (state : RadioState) (s : Soc)
      → s.radio.fsm.radio_state ≡ state
      → seen (stop_activity s) ≡ (s.now, (s.radio.mode, halted state))
  unfolding abort_if_needed
  stop_activity-seen rad_tx s e = rw e refl
  stop_activity-seen rad_txstarting s e = rw e refl
  stop_activity-seen rad_rx s e = rw e refl
  stop_activity-seen rad_cca_ed s e = rw e refl
  stop_activity-seen rad_txru s e = rw e refl
  stop_activity-seen rad_txidle s e = rw e refl
  stop_activity-seen rad_rxru s e = rw e refl
  stop_activity-seen rad_rxidle s e = rw e refl
  stop_activity-seen rad_disabled s e = rw e refl
  stop_activity-seen rad_txdisable s e = rw e refl
  stop_activity-seen rad_rxdisable s e = rw e refl

  give_up_tifs-seen : (s : Soc) → seen (give_up_tifs s) ≡ seen s
  give_up_tifs-seen s =
      if_intro (λ t. seen t ≡ seen s) (is_tifs_disabled s.radio.fsm.tifs_state) {x = s} refl
        (set_timer-seen env.time_never (with_tifs_state tifs_disable s))

  -- How long the side takes.
  abbrev pub ramp_down_time : Side → Radio → ℕ
  ramp_down_time transmitter r = nrfra_timings_get_tx_rampdown_time r
  ramp_down_time receiver r = nrfra_timings_get_rx_rampdown_time

  ramp_down_time-mode :
      (side : Side) (q r : Radio) → q.mode ≡ r.mode → ramp_down_time side q ≡ ramp_down_time side r
  unfolding nrfra_timings_get_tx_rampdown_time
  ramp_down_time-mode transmitter q r e = rw e refl
  ramp_down_time-mode receiver q r e = refl

  -- The side is ramping down: radio_state, STATE, the end of it, and no inter-frame spacing.
  abbrev pub RampsDown : Side → (time : ℕ) → Soc → Type 0
  RampsDown side time t =
      (t.radio.fsm.radio_state ≡ ramping_down side)
      × ((t.radio.state ≡ state_value (ramping_down side))
          × ((t.timer_radio ≡ time) × (t.radio.fsm.tifs_state ≡ tifs_disable)))

  begin-RampsDown :
      (side : Side) (time : ℕ) (s : Soc)
      → RampsDown side time
          (nrfra_set_timer_radio time (with_tifs_state tifs_disable (enter (ramping_down side) s)))
  begin-RampsDown side time s =
      let e = set_timer-set time (with_tifs_state tifs_disable (enter (ramping_down side) s)) in
      (
        ap (λ p. p.1.fsm.radio_state) e,
        (ap (λ p. p.1.state) e, (ap (λ p. p.0) e, ap (λ p. p.1.fsm.tifs_state) e)),
      )

  -- What is said of t, for an active side of s.
  abbrev Follows : Option Side → Soc → Soc → Type 0
  Follows none s t = Unit
  Follows (some side) s t = RampsDown side (add64 s.now (ramp_down_time side s.radio)) t

  ramp_down-Follows :
      (state : RadioState) (s : Soc)
      → s.radio.fsm.radio_state ≡ halted state
      → Follows (active_side state) s (ramp_down s)
  unfolding ramp_down
  ramp_down-Follows rad_tx s e = rw e (begin-RampsDown transmitter _ s)
  ramp_down-Follows rad_txstarting s e = rw e (begin-RampsDown transmitter _ s)
  ramp_down-Follows rad_txru s e = rw e (begin-RampsDown transmitter _ s)
  ramp_down-Follows rad_txidle s e = rw e (begin-RampsDown transmitter _ s)
  ramp_down-Follows rad_rx s e = rw e (begin-RampsDown receiver _ s)
  ramp_down-Follows rad_cca_ed s e = rw e (begin-RampsDown receiver _ s)
  ramp_down-Follows rad_rxru s e = rw e (begin-RampsDown receiver _ s)
  ramp_down-Follows rad_rxidle s e = rw e (begin-RampsDown receiver _ s)
  ramp_down-Follows rad_disabled s e = tt
  ramp_down-Follows rad_txdisable s e = tt
  ramp_down-Follows rad_rxdisable s e = tt

  -- Follows reads no more of the state before than its time and mode.
  moved-Follows :
      (side : Option Side) (s u t : Soc)
      → u.now ≡ s.now
      → u.radio.mode ≡ s.radio.mode
      → Follows side u t
      → Follows side s t
  moved-Follows none s u t now mode f = tt
  moved-Follows (some side) s u t now mode f =
      let when =
        ap (λ n. add64 n (ramp_down_time side u.radio)) now
        ∙ ap (add64 s.now) (ramp_down_time-mode side u.radio s.radio mode) in
      (f.0, (f.1.0, (f.1.1.0 ∙ when, f.1.1.1)))

  -- What DISABLE stops before the ramp-down.
  stopped-seen :
      (s : Soc)
      → seen (give_up_tifs (stop_activity (nrf_radio_stop_bit_counter s)))
        ≡ (s.now, (s.radio.mode, halted s.radio.fsm.radio_state))
  stopped-seen s =
      let t = nrf_radio_stop_bit_counter s in
      give_up_tifs-seen (stop_activity t)
      ∙ stop_activity-seen t.radio.fsm.radio_state t refl
      ∙ ap (λ p. (p.0, (p.1.0, halted p.1.1))) (stop_bit_counter-seen s)

  -- TASKS_DISABLE in every state in which one side of the radio is on, or on its way to be (ramping up, idle,
  -- starting, transmitting, receiving, in a CCA or ED procedure): radio_state and STATE are the disabling state
  -- of that side, Timer_RADIO is at the end of its ramp-down, counted from now, and a pending inter-frame
  -- spacing is given up.
  pub disable-RampsDown :
      (side : Side) (s : Soc)
      → active_side s.radio.fsm.radio_state ≡ some side
      → RampsDown side (add64 s.now (ramp_down_time side s.radio)) (nrf_radio_tasks_disable s)
  unfolding nrf_radio_tasks_disable
  disable-RampsDown side s a =
      let u = give_up_tifs (stop_activity (nrf_radio_stop_bit_counter s)) in
      let e = stopped-seen s in
      let f : Follows (active_side s.radio.fsm.radio_state) s (ramp_down u) =
        moved-Follows (active_side s.radio.fsm.radio_state) s u (ramp_down u) (ap (λ p. p.0) e)
          (ap (λ p. p.1.0) e) (ramp_down-Follows s.radio.fsm.radio_state u (ap (λ p. p.1.1) e)) in
      let g : Follows (some side) s (ramp_down u) = rw a at f in g
