-- ===== src/Examples/Pins.antt =====
-- The pins, the GPIOTE and the address resolver at concrete states.
use ext_nrf52_hw_models.Common.{
  ℕ, ◌/◌, ◌^◌, ◌<◌, ◌≡◌, ◌≢◌, refl, true, false, not, ◌&&◌, ◌||◌, ◌==◌, if◌then◌else◌, none,
  nonzero, arith,
}
use ext_nrf52_hw_models.Common.Bits.{bit, differs}
use ext_nrf52_hw_models.Soc.{Soc, Port}
use ext_nrf52_hw_models.Examples.Setup.{
  bench, rest, idle_port, idle_gpio, idle_gpiote, idle_channel, idle_aar,
}
use ext_nrf52_hw_models.Gpiote.Events.{
  with_channel, find_channel, nrf_gpiote_events_in, nrf_gpiote_input_change_ntf, notify_channel,
  channel_input_change, nrf_gpiote_port_event_raise,
}
use ext_nrf52_hw_models.Gpio.{
  with_port, get_dir, get_out, driven, sensed, cleared_latch, nrf_gpio_eval_sense,
  nrf_gpio_regw_sideeffects_latch,
}
use ext_nrf52_hw_models.GpioteLaws.Notify.{is_set_to, counts, input_change_ntf_lem}
use ext_nrf52_hw_models.GpioLaws.Sense.{signal, eval_sense_lem, regw_sideeffects_latch_lem}
use ext_nrf52_hw_models.Aar.{nrf_aar_resolve}
use ext_nrf52_hw_models.AarLaws.{IsFirstMatch, aar_resolve_lem}

-- P0.3 is an input with SENSE for high, and high; P0.4 is an output at high.
abbrev busy_port : Port
busy_port = record idle_port {
  in_reg = 0x8;
  io_level = 0x18;
  dir = 0x10;
  out = 0x10;
  o_level = 0x10;
  input_mask = 0xffff_fff7;
  sense_mask = 0x8;
  ldetect = 0x1;
  latch = 0x1;
}

-- DIR is cleared for P0.4: the pin stays high.
released : bit (driven (record busy_port { dir = 0 })).io_level 4 ≡ true
unfolding driven get_dir get_out
released = refl

-- Channel 1 waits for a rising edge of P0.3, for which channel 0 is not set.
abbrev waiting : Soc
waiting = record rest {
  gpio = record idle_gpio { port = λ p. busy_port };
  gpiote = record idle_gpiote {
    inten = 2;
    channel = λ n.
        if n == 1 then record idle_channel { mode = 1; pin = 3; polarity = 1 } else idle_channel;
  };
}

eval_sense_lem_example :
    let p = busy_port in
    let p' = sensed p in
    ((n : ℕ)
      → (bit p'.detect n ≡ (differs (bit p.in_reg n) (bit p.sense_inv n) && bit p.sense_mask n))
        × (bit p'.latch n ≡ (bit p.ldetect n || bit p'.detect n)))
    × (p'.ldetect ≡ p'.latch)
    × (p'.detect_signal ≡ signal p')
    × (nrf_gpio_eval_sense ⦃env = bench⦄ 0 waiting ≡ (
        if signal p' && not p.detect_signal
        then nrf_gpiote_port_event_raise ⦃env = bench⦄ 0 (with_port 0 p' waiting)
        else with_port 0 p' waiting))
eval_sense_lem_example = eval_sense_lem ⦃env = bench⦄ 0 waiting

regw_sideeffects_latch_lem_example :
    let p = busy_port in
    let p' = cleared_latch p in
    ((n : ℕ) → bit p'.latch n ≡ ((bit p.ldetect n && not (bit p.latch n)) || bit p.detect n))
    × (p'.ldetect ≡ p'.latch)
    × (p'.detect_signal ≡ signal p')
    × (nrf_gpio_regw_sideeffects_latch ⦃env = bench⦄ 0 waiting ≡ (
        if nonzero p.latch && (nonzero p'.latch && p'.detectmode == 1)
        then nrf_gpiote_port_event_raise ⦃env = bench⦄ 0 (with_port 0 p' waiting)
        else with_port 0 p' waiting))
regw_sideeffects_latch_lem_example =
    regw_sideeffects_latch_lem ⦃env = bench⦄ 0 waiting (omega arith) (omega arith)

only_channel_1 : (j : ℕ) → j < 1 → is_set_to 0 3 waiting.gpiote j ≡ false
only_channel_1 j below = let first : j ≡ 0 = omega arith in rw first refl

input_change_ntf_lem_example :
    let c = waiting.gpiote.channel 1 in
    let s' = nrf_gpiote_input_change_ntf ⦃env = bench⦄ 0 3 true waiting in
    let noted = with_channel 1 (record c { level = true }) waiting in
    (c.polarity ≡ 0 → s' ≡ waiting)
    × (c.polarity ≢ 0
        → true ≡ true
        → s' ≡ (
            if differs c.level true && counts ⦃env = bench⦄ c.polarity true
            then nrf_gpiote_events_in ⦃env = bench⦄ 1 noted
            else noted))
input_change_ntf_lem_example =
    input_change_ntf_lem ⦃env = bench⦄ (λ e. absurd (omega arith)) (λ e. absurd (omega arith))
      (λ e. absurd (omega arith)) 1 0 3 true waiting (omega arith) refl only_channel_1

-- A channel that is not in use is set to P0.0, so that it hides channel 1 when that waits for P0.0.
abbrev hidden : Soc
hidden = record rest {
  gpiote = record idle_gpiote {
    inten = 2;
    channel = λ n.
        if n == 1 then record idle_channel { mode = 1; pin = 0; polarity = 1 } else idle_channel;
  };
}

hidden_channel : nrf_gpiote_input_change_ntf ⦃env = bench⦄ 0 0 true hidden ≡ hidden
unfolding nrf_gpiote_input_change_ntf notify_channel channel_input_change find_channel
hidden_channel = refl

-- Two keys; the memory holds 0x40 at every address.
abbrev resolving : Soc
resolving = record rest {
  ram = λ address. 0x40;
  aar = record idle_aar { enable = 3; nirk = 2; irkptr = 0x2000 };
}

aar_resolve_lem_example :
    let r = nrf_aar_resolve ⦃env = bench⦄ resolving in
    (0x404040 / 2 ^ 22 ≢ 1 → r.good_irk ≡ none × (r.n_irks ≡ 2))
    × (0x404040 / 2 ^ 22 ≡ 1 → IsFirstMatch ⦃env = bench⦄ resolving 0 2 r)
aar_resolve_lem_example = aar_resolve_lem ⦃env = bench⦄ resolving
