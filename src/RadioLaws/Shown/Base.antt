-- ===== src/RadioLaws/Shown/Base.antt =====
-- STATE and radio_state of src/HW_models/NRF_RADIO.c: what the calls of the radio's own parts keep.
use ext_nrf52_hw_models.Common.{ℕ, ◌≡◌, refl, not, ◌==◌, if_intro, List, [], ◌∷◌, nonzero, bit_and}
use ext_nrf52_hw_models.Soc.{
  Soc, RadioShort, RadioState, rad_rxidle, rad_txstarting, rad_tx, rad_cca_ed,
}
use ext_nrf52_hw_models.Soc.Env.{Env}
use ext_nrf52_hw_models.TopLaws.Scheduled.{IsApart, find_next-apart}
use ext_nrf52_hw_models.IrqLaws.Apart.{set_irq-apart}
use ext_nrf52_hw_models.Top.{nrf_hw_find_next_timer_to_trigger}
use ext_nrf52_hw_models.Irq.{hw_irq_ctrl_set_irq}
use ext_nrf52_hw_models.Radio.{
  state_value, has_radio_short, nrfra_set_timer_radio, nrfra_set_timer_abort_reeval,
  abort_if_needed, update_abort_struct, nrf_radio_stop_bit_counter, nrf_radio_tasks_bcstart,
  nrf_radio_tasks_rssistart, nrf_radio_tasks_rssistop, run_shorts, raise_radio_event,
  raise_radio_irq, signal,
}

pub radio-IsApart : IsApart (λ (s : Soc). s.radio)
radio-IsApart = record { apart = λ s c m n k h. refl }

-- What STATE shows: the start of a transmission as TX, and a CCA or ED procedure as RXIDLE.
abbrev pub shown : RadioState → ℕ
shown rad_txstarting = state_value rad_tx
shown rad_cca_ed = state_value rad_rxidle
shown state = state_value state

abbrev pub IsShown : Soc → Type 0
IsShown s = s.radio.state ≡ shown s.radio.fsm.radio_state

-- A call that keeps a property of the system.
abbrev pub Keeps : (Soc → Type 0) → (Soc → Soc) → Type 0
Keeps P f = (s : Soc) → P s → P (f s)

pub find_next-IsShown : Keeps IsShown nrf_hw_find_next_timer_to_trigger
find_next-IsShown s h = rw (find_next-apart (λ (t : Soc). t.radio) radio-IsApart s) h

pub set_irq-IsShown : (irq : ℕ) → Keeps IsShown (hw_irq_ctrl_set_irq irq)
set_irq-IsShown irq s h = rw (set_irq-apart (λ (t : Soc). t.radio) radio-IsApart irq s) h

pub set_timer-IsShown : (t : ℕ) → Keeps IsShown (nrfra_set_timer_radio t)
unfolding nrfra_set_timer_radio
set_timer-IsShown t s h = find_next-IsShown _ h

pub set_abort-IsShown : (t : ℕ) → Keeps IsShown (nrfra_set_timer_abort_reeval t)
unfolding nrfra_set_timer_abort_reeval
set_abort-IsShown t s h = find_next-IsShown _ h

pub abort_if_needed-IsShown : Keeps IsShown abort_if_needed
unfolding abort_if_needed
abort_if_needed-IsShown s h = h

pub bcstart-IsShown : Keeps IsShown nrf_radio_tasks_bcstart
unfolding nrf_radio_tasks_bcstart
bcstart-IsShown s h = if_intro IsShown s.radio.bit_counter_running h (find_next-IsShown _ h)

pub rssistart-IsShown : Keeps IsShown nrf_radio_tasks_rssistart
unfolding nrf_radio_tasks_rssistart
rssistart-IsShown s h = h

pub rssistop-IsShown : Keeps IsShown nrf_radio_tasks_rssistop
unfolding nrf_radio_tasks_rssistop
rssistop-IsShown s h = h

module _ ⦃env : Env⦄ where
  pub stop_bit_counter-IsShown : Keeps IsShown nrf_radio_stop_bit_counter
  unfolding nrf_radio_stop_bit_counter
  stop_bit_counter-IsShown s h = if_intro IsShown (not s.radio.bit_counter_running) h (
      if_intro IsShown (not (s.timer_radio_bitcounter == env.time_never)) (find_next-IsShown _ h) h)

  pub update_abort-IsShown : Keeps IsShown update_abort_struct
  unfolding update_abort_struct
  update_abort-IsShown s h = h

  -- The calls out of the radio keep it: an event may run any task.
  pub record KeepsShown : Type 0 where
    pub ppi : (event : ℕ) → Keeps IsShown (env.nrf_ppi_event event)
    pub sync : (time : ℕ) → Keeps IsShown (env.tm_update_last_phy_sync_time time)

  -- Each of the shorts' tasks keeps it.
  abbrev pub AllKeep : List (RadioShort × (Soc → Soc)) → Type 0
  AllKeep [] = Unit
  AllKeep ((short, task) ∷ rest) = Keeps IsShown task × AllKeep rest

  pub run_shorts-IsShown :
      (shorts : List (RadioShort × (Soc → Soc)))
      → AllKeep shorts
      → Keeps IsShown (run_shorts shorts)
  unfolding run_shorts
  run_shorts-IsShown [] all s h = h
  run_shorts-IsShown ((short, task) ∷ rest) all s h =
      run_shorts-IsShown rest all.1 _
        (if_intro IsShown (has_radio_short short s.radio) (all.0 s h) h)

  pub raise_irq-IsShown : (event : ℕ) → Keeps IsShown (raise_radio_irq event)
  unfolding raise_radio_irq
  raise_irq-IsShown event s h =
      if_intro IsShown (nonzero (bit_and s.radio.inten (env.mdk.radio_intenset_msk event)))
        (set_irq-IsShown _ s h) h

  module _ (keeps : KeepsShown) where
    pub raise_event-IsShown : (event : ℕ) → Keeps IsShown (raise_radio_event event)
    unfolding raise_radio_event
    raise_event-IsShown event s h = keeps.ppi event _ h

    pub signal-IsShown :
        (event : ℕ) (shorts : List (RadioShort × (Soc → Soc)))
        → AllKeep shorts
        → Keeps IsShown (signal event shorts)
    unfolding signal
    signal-IsShown event shorts all s h =
        raise_irq-IsShown event _ (run_shorts-IsShown shorts all _ (raise_event-IsShown event s h))
