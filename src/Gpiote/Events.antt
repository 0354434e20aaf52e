-- ===== src/Gpiote/Events.antt =====
-- src/HW_models/NRF_GPIOTE.c: the interrupt line, the events, and the notification of an input change.
use ext_nrf52_hw_models.Common.{
  ℕ, zero, suc, ◌+◌, ◌/◌, ◌%◌, ◌^◌, Bool, true, false, not, ◌&&◌, ◌||◌, Option, none, some, ◌==◌,
  if◌then◌else◌, nonzero, bit_and, update, for_range,
}
use ext_nrf52_hw_models.Soc.{Soc, GpioteChannel, Gpiote}
use ext_nrf52_hw_models.Soc.Env.{Env}
use ext_nrf52_hw_models.Irq.{
  hw_irq_ctrl_raise_level_irq_line, hw_irq_ctrl_lower_level_irq_line, trace_error,
}

abbrev pub n_gpiote_channels : ℕ
n_gpiote_channels = 8

-- GPIOTE_EVENTS_IN_0 and GPIOTE_EVENTS_PORT of NRF_PPI.h.
abbrev pub gpiote_events_in_0 : ℕ
gpiote_events_in_0 = 30

abbrev pub gpiote_events_port : ℕ
gpiote_events_port = 38

abbrev pub with_gpiote : Gpiote → Soc → Soc
with_gpiote g s = record s { gpiote = g }

-- gpiote_ch_status[n] = c
abbrev pub with_channel : ℕ → GpioteChannel → Soc → Soc
with_channel n c s = with_gpiote (record (s.gpiote) { channel = update s.gpiote.channel n c }) s

-- The search of nrf_gpiote_input_change_ntf, over the channels from i on of which left remain.
unfoldable pub find_channel : (left i : ℕ) → (port pin : ℕ) → Gpiote → Option ℕ
find_channel zero i port pin g = none
find_channel (suc left) i port pin g =
    let rest = find_channel left (i + 1) port pin g in
    if (g.channel i).port == port && (g.channel i).pin == pin then some i else rest

module _ ⦃env : Env⦄ where
  -- new_int_line of nrf_gpiote_eval_interrupt; the loop may end early there.
  unfoldable pub new_int_line : Gpiote → Bool
  new_int_line g =
      let port_mask =
        bit_and g.inten env.mdk.gpiote_intenclr_port_msk / 2 ^ env.mdk.gpiote_intenclr_port_pos in
      for_range n_gpiote_channels 0
        (λ i line. if g.inten / 2 ^ i % 2 == 1 && nonzero (g.events_in i) then true else line) false
      || (nonzero g.events_port && nonzero port_mask)

  unfoldable pub nrf_gpiote_eval_interrupt : Soc → Soc
  nrf_gpiote_eval_interrupt s =
      let g = s.gpiote in
      let line = new_int_line g in
      if not g.int_line && line
      then hw_irq_ctrl_raise_level_irq_line env.mdk.gpiote_irqn
          (with_gpiote (record g { int_line = true }) s)
      else if g.int_line && not line
      then hw_irq_ctrl_lower_level_irq_line env.mdk.gpiote_irqn
          (with_gpiote (record g { int_line = false }) s)
      else s

  unfoldable pub nrf_gpiote_events_in : ℕ → Soc → Soc
  nrf_gpiote_events_in n s =
      let g = s.gpiote in
      env.nrf_ppi_event (gpiote_events_in_0 + n) (
        nrf_gpiote_eval_interrupt (with_gpiote (record g { events_in = update g.events_in n 1 }) s))

  unfoldable pub nrf_gpiote_events_port : Soc → Soc
  nrf_gpiote_events_port s =
      env.nrf_ppi_event gpiote_events_port
        (nrf_gpiote_eval_interrupt (with_gpiote (record (s.gpiote) { events_port = 1 }) s))

  unfoldable pub nrf_gpiote_port_event_raise : ℕ → Soc → Soc
  nrf_gpiote_port_event_raise port s = nrf_gpiote_events_port s

  -- What the switch on the polarity gives for the level so far and the new one: nothing for None and
  -- no channel otherwise.
  unfoldable pub edge : (polarity : ℕ) → (level value : Bool) → Bool
  edge polarity level value =
      if polarity == env.mdk.gpiote_config_polarity_lo_to_hi
      then not level && value
      else if polarity == env.mdk.gpiote_config_polarity_hi_to_lo
      then level && not value
      else (level && not value) || (not level && value)

  -- A polarity that the switch has a case for.
  abbrev pub known_polarity : ℕ → Bool
  known_polarity polarity =
      polarity == env.mdk.gpiote_config_polarity_lo_to_hi
      || (polarity == env.mdk.gpiote_config_polarity_hi_to_lo
          || polarity == env.mdk.gpiote_config_polarity_toggle)

  -- nrf_gpiote_input_change_ntf from its switch on, for the channel i that was found.
  unfoldable pub channel_input_change : ℕ → Bool → Soc → Soc
  channel_input_change i value s =
      let c = s.gpiote.channel i in
      let noted = with_channel i (record c { level = value }) s in
      if c.polarity == env.mdk.gpiote_config_polarity_none
      then s
      else if not (known_polarity c.polarity)
      then trace_error s
      else if edge c.polarity c.level value
      then nrf_gpiote_events_in i noted
      else noted

  -- Without a channel the process ends.
  unfoldable pub notify_channel : Option ℕ → Bool → Soc → Soc
  notify_channel none value s = trace_error s
  notify_channel (some i) value s = channel_input_change i value s

  unfoldable pub nrf_gpiote_input_change_ntf : (port pin : ℕ) → Bool → Soc → Soc
  nrf_gpiote_input_change_ntf port pin value s =
      notify_channel (find_channel n_gpiote_channels 0 port pin s.gpiote) value s
