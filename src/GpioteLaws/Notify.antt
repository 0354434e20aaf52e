-- ===== src/GpioteLaws/Notify.antt =====
-- nrf_gpiote_input_change_ntf of src/HW_models/NRF_GPIOTE.c: which channel an input change reaches.
use ext_nrf52_hw_models.Common.{
  ℕ, zero, suc, ◌+◌, ◌<◌, ◌≤◌, ◌≡◌, refl, sym, ◌≢◌, Bool, true, false, ◌&&◌, ◌||◌, ◌==◌, ==_iff,
  if◌then◌else◌, Bool-cases, inl, inr, arith, some,
}
use ext_nrf52_hw_models.Common.Bits.{differs}
use ext_nrf52_hw_models.Soc.{Soc, Gpiote}
use ext_nrf52_hw_models.Soc.Env.{Env}
use ext_nrf52_hw_models.Gpiote.Events.{
  n_gpiote_channels, with_channel, find_channel, edge, known_polarity, notify_channel,
  channel_input_change, nrf_gpiote_events_in, nrf_gpiote_input_change_ntf,
}

-- Is the channel set to the pin, whatever its mode?
abbrev pub is_set_to : (port pin : ℕ) → Gpiote → ℕ → Bool
is_set_to port pin g i = (g.channel i).port == port && (g.channel i).pin == pin

-- The search finds the first such channel.
find_channel-first :
    (left i first : ℕ) (port pin : ℕ) (g : Gpiote)
    → i ≤ first
    → first < i + left
    → is_set_to port pin g first ≡ true
    → ((j : ℕ) → i ≤ j → j < first → is_set_to port pin g j ≡ false)
    → find_channel left i port pin g ≡ some first
unfolding find_channel
find_channel-first zero i first port pin g from to here before = absurd (omega arith)
find_channel-first (suc left) i first port pin g from to here before =
    elim (Bool-cases (i == first)) [
      | inl same ↦
          let e : first ≡ i = sym ((==_iff i first).0 same) in
          let found : is_set_to port pin g i ≡ true = rw e at here in rw (found, e) refl
      | inr other ↦
          let later : i < first = ground arith in
          rw (before i (omega arith) later) (
            find_channel-first left (i + 1) first port pin g (omega arith) (omega arith) here
              (λ j above below. before j (omega arith) below))
    ]

module _ ⦃env : Env⦄ where
  -- The polarities under which a change to a level counts.
  abbrev pub counts : (polarity : ℕ) → Bool → Bool
  counts polarity value =
      polarity == env.mdk.gpiote_config_polarity_toggle
      || polarity == (
          if value
          then env.mdk.gpiote_config_polarity_lo_to_hi
          else env.mdk.gpiote_config_polarity_hi_to_lo)

  module _
      (rise_fall : env.mdk.gpiote_config_polarity_lo_to_hi
        ≢ env.mdk.gpiote_config_polarity_hi_to_lo)
      (rise_toggle : env.mdk.gpiote_config_polarity_lo_to_hi
        ≢ env.mdk.gpiote_config_polarity_toggle)
      (fall_toggle : env.mdk.gpiote_config_polarity_hi_to_lo
        ≢ env.mdk.gpiote_config_polarity_toggle) where
    edge_lem :
        (polarity : ℕ) (level value : Bool)
        → known_polarity polarity ≡ true
        → edge polarity level value ≡ (differs level value && counts polarity value)
    unfolding edge
    edge_lem polarity level true known = ground arith
    edge_lem polarity level false known = ground arith

    -- Where the values of the polarity field differ, and channel first is the first of the eight that is set
    -- to the pin: an input change reaches that channel alone. With the polarity None nothing happens;
    -- otherwise the channel takes the new level, and its IN event is raised exactly if the level is another
    -- one and the polarity is Toggle or the direction of the change.
    pub input_change_ntf_lem :
        (first port pin : ℕ) (value : Bool) (s : Soc)
        → first < 8
        → is_set_to port pin s.gpiote first ≡ true
        → ((j : ℕ) → j < first → is_set_to port pin s.gpiote j ≡ false)
        → let c = s.gpiote.channel first in
          let s' = nrf_gpiote_input_change_ntf port pin value s in
          let noted = with_channel first (record c { level = value }) s in
          (c.polarity ≡ env.mdk.gpiote_config_polarity_none → s' ≡ s)
          × (c.polarity ≢ env.mdk.gpiote_config_polarity_none
              → known_polarity c.polarity ≡ true
              → s' ≡ (
                  if differs c.level value && counts c.polarity value
                  then nrf_gpiote_events_in first noted
                  else noted))
    unfolding nrf_gpiote_input_change_ntf notify_channel channel_input_change
    input_change_ntf_lem first port pin value s inside here before =
        let c = s.gpiote.channel first in
        let found =
          find_channel-first n_gpiote_channels 0 first port pin s.gpiote (omega arith) (omega arith)
            here (λ j above below. before j below) in
        rw found (
          λ none_set. rw ((==_iff _ _).1 none_set) refl,
          λ some_set known.
              let other : (c.polarity == env.mdk.gpiote_config_polarity_none) ≡ false =
                ground arith in
              rw (other, known, edge_lem c.polarity c.level value known) refl,
        )
