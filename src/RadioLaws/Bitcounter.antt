-- ===== src/RadioLaws/Bitcounter.antt =====
-- The bit counter of src/HW_models/NRF_RADIO_bitcounter.c.
use ext_nrf52_hw_models.Common.{
  ℕ, ◌≡◌, refl, sym, ◌∙◌, ap, true, false, ltb, ◌==◌, ==_iff, if◌then◌else◌, Bool-cases, inl, inr,
  add64,
}
use ext_nrf52_hw_models.Soc.{Soc, Radio}
use ext_nrf52_hw_models.Soc.Env.{Env}
use ext_nrf52_hw_models.TopLaws.Scheduled.{IsApart, find_next-apart}
use ext_nrf52_hw_models.Radio.{
  bit_time, nrf_radio_tasks_bcstart, nrf_radio_stop_bit_counter, nrf_radio_tasks_bcstop,
  nrf_radio_regw_sideeffects_bcc,
}

radio-IsApart : IsApart (λ (s : Soc). s.radio)
radio-IsApart = record { apart = λ s c m n k h. refl }

timer-IsApart : IsApart (λ (s : Soc). s.timer_radio_bitcounter)
timer-IsApart = record { apart = λ s c m n k h. refl }

-- The software writes BCC at a later time.
abbrev pub write_bcc : (later bits : ℕ) → Soc → Soc
write_bcc later bits s = record s { now = later; radio = record (s.radio) { bcc = bits } }

bcstart_lem :
    (s : Soc)
    → s.radio.bit_counter_running ≡ false
    → ((nrf_radio_tasks_bcstart s).radio
        ≡ record (s.radio) { bit_counter_running = true; time_bitcounter_started = s.now })
      × ((nrf_radio_tasks_bcstart s).timer_radio_bitcounter ≡ add64 s.now (bit_time s.radio))
unfolding nrf_radio_tasks_bcstart
bcstart_lem s idle = rw idle (
  find_next-apart (λ (t : Soc). t.radio) radio-IsApart _,
  find_next-apart (λ (t : Soc). t.timer_radio_bitcounter) timer-IsApart _,
)

module _ ⦃env : Env⦄ where
  bcc_lem :
      (s : Soc)
      → s.radio.bit_counter_running ≡ true
      → let match_time = add64 s.radio.time_bitcounter_started (bit_time s.radio) in
        ((nrf_radio_regw_sideeffects_bcc s).radio ≡ s.radio)
        × ((nrf_radio_regw_sideeffects_bcc s).timer_radio_bitcounter
            ≡ (if ltb match_time s.now then env.time_never else match_time))
  unfolding nrf_radio_regw_sideeffects_bcc
  bcc_lem s running = rw running (
    find_next-apart (λ (t : Soc). t.radio) radio-IsApart _,
    find_next-apart (λ (t : Soc). t.timer_radio_bitcounter) timer-IsApart _,
  )

  bcstop_lem :
      (s : Soc)
      → s.radio.bit_counter_running ≡ true
      → ((nrf_radio_tasks_bcstop s).radio.bit_counter_running ≡ false)
        × ((nrf_radio_tasks_bcstop s).timer_radio_bitcounter ≡ env.time_never)
  unfolding nrf_radio_tasks_bcstop nrf_radio_stop_bit_counter
  bcstop_lem s running =
      rw running (elim (Bool-cases (s.timer_radio_bitcounter == env.time_never)) [
        | inl no_match ↦ rw no_match (refl, (==_iff _ _).0 no_match)
        | inr has_match ↦ rw has_match (
          ap (λ (r : Radio). r.bit_counter_running)
              (find_next-apart (λ (t : Soc). t.radio) radio-IsApart _),
          find_next-apart (λ (t : Soc). t.timer_radio_bitcounter) timer-IsApart _,
        )
      ])

  -- Where the bit counter is off: after BCSTART, and BCC written at a later time, the match is at the time
  -- that a start with the new BCC would have set, or never where that has passed; and BCSTOP then turns the
  -- counter off and takes the match away.
  pub bcstart-bcc-bcstop :
      (s : Soc) (later bits : ℕ)
      → s.radio.bit_counter_running ≡ false
      → let written = write_bcc later bits (nrf_radio_tasks_bcstart s) in
        let s' = nrf_radio_regw_sideeffects_bcc written in
        let direct = (nrf_radio_tasks_bcstart (write_bcc s.now bits s)).timer_radio_bitcounter in
        (s'.timer_radio_bitcounter ≡ (if ltb direct later then env.time_never else direct))
        × ((nrf_radio_tasks_bcstop s').radio.bit_counter_running ≡ false)
        × ((nrf_radio_tasks_bcstop s').timer_radio_bitcounter ≡ env.time_never)
  bcstart-bcc-bcstop s later bits idle =
      let started = bcstart_lem s idle in
      let direct = bcstart_lem (write_bcc s.now bits s) idle in
      let written = write_bcc later bits (nrf_radio_tasks_bcstart s) in
      let is_on : written.radio.bit_counter_running ≡ true =
        ap (λ (r : Radio). r.bit_counter_running) started.0 in
      let set = bcc_lem written is_on in
      let stop =
        bcstop_lem (nrf_radio_regw_sideeffects_bcc written)
          (ap (λ (r : Radio). r.bit_counter_running) set.0 ∙ is_on) in
      let the_match : add64 written.radio.time_bitcounter_started (bit_time written.radio)
          ≡ add64 s.now (bit_time (record (s.radio) { bcc = bits })) =
        ap (λ (r : Radio). add64 r.time_bitcounter_started (bit_time (record r { bcc = bits })))
          started.0 in
      (
        set.1 ∙ ap (λ t. if ltb t later then env.time_never else t) (the_match ∙ sym direct.1),
        stop.0,
        stop.1,
      )
