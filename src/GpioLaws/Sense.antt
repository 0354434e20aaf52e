-- ===== src/GpioLaws/Sense.antt =====
-- The sense of src/HW_models/NRF_GPIO.c: DETECT, LATCH and the signal to the GPIOTE.
use ext_nrf52_hw_models.Common.{
  ℕ, ◌^◌, ◌<◌, ◌≡◌, refl, ◌∙◌, ap, Bool, true, false, not, ◌&&◌, ◌||◌, ◌==◌, if◌then◌else◌, nonzero,
  bit_and, bit_or, bit_xor, clear32,
}
use ext_nrf52_hw_models.Common.Bits.{bit, bit-and, bit-or, bit-xor, differs}
use ext_nrf52_hw_models.Common.Clear.{bit-clear32}
use ext_nrf52_hw_models.Soc.{Soc, Port}
use ext_nrf52_hw_models.Soc.Env.{Env}
use ext_nrf52_hw_models.Gpio.{
  with_port, nrf_gpio_update_detect_signal, sensed, nrf_gpio_eval_sense, cleared_latch,
  nrf_gpio_regw_sideeffects_latch,
}
use ext_nrf52_hw_models.Gpiote.Events.{nrf_gpiote_port_event_raise}

-- What the signal to the GPIOTE has to be.
abbrev pub signal : Port → Bool
signal p = if p.detectmode == 0 then nonzero p.detect else nonzero p.ldetect

choose_signal :
    (b x y : Bool) (p : Port)
    → (if b then record p { detect_signal = x } else record p { detect_signal = y })
      ≡ record p { detect_signal = if b then x else y }
choose_signal true x y p = refl
choose_signal false x y p = refl

update_detect_signal_lem :
    (p : Port) → nrf_gpio_update_detect_signal p ≡ record p { detect_signal = signal p }
unfolding nrf_gpio_update_detect_signal
update_detect_signal_lem p =
    choose_signal (p.detectmode == 0) (nonzero p.detect) (nonzero p.ldetect) p

-- Each pin's DETECT is its sense; LATCH keeps what it has and takes DETECT in.
sensed_lem :
    (p : Port) (n : ℕ)
    → let p' = sensed p in
      (bit p'.detect n ≡ (differs (bit p.in_reg n) (bit p.sense_inv n) && bit p.sense_mask n))
      × (bit p'.latch n ≡ (bit p.ldetect n || bit p'.detect n))
      × (p'.ldetect ≡ p'.latch)
      × (p'.detect_signal ≡ signal p')
unfolding sensed
sensed_lem p n =
    let detect = bit_and (bit_xor p.in_reg p.sense_inv) p.sense_mask in
    let sense =
      bit-and n (bit_xor p.in_reg p.sense_inv) p.sense_mask
      ∙ ap (λ b. b && bit p.sense_mask n) (bit-xor n p.in_reg p.sense_inv) in
    let ldetect = bit_or p.ldetect detect in
    rw (update_detect_signal_lem (record p { detect = detect; ldetect = ldetect; latch = ldetect }))
      (sense, bit-or n p.ldetect detect, refl, refl)

cleared_latch_lem :
    (p : Port) (n : ℕ)
    → p.ldetect < 2 ^ 32
    → p.latch < 2 ^ 32
    → let p' = cleared_latch p in
      (bit p'.latch n ≡ ((bit p.ldetect n && not (bit p.latch n)) || bit p.detect n))
      × (p'.ldetect ≡ p'.latch)
      × (p'.detect_signal ≡ signal p')
unfolding cleared_latch
cleared_latch_lem p n fits written =
    let kept = clear32 p.ldetect p.latch in
    let latched =
      bit-or n kept p.detect
      ∙ ap (λ b. b || bit p.detect n) (bit-clear32 n p.ldetect p.latch fits written) in
    let ldetect = bit_or kept p.detect in
    rw (update_detect_signal_lem (record p { ldetect = ldetect; latch = ldetect }))
      (latched, refl, refl)

module _ ⦃env : Env⦄ where
  -- The sense of a port: a pin's DETECT is up exactly if its SENSE is enabled and its IN, inverted where SENSE
  -- says so, is high; LATCH and LDETECT keep their bits and take in those of DETECT; the signal is up exactly
  -- if DETECT, or LDETECT by DETECTMODE, has a bit; and the GPIOTE's PORT event is raised exactly on the
  -- signal's rising edge.
  pub eval_sense_lem :
      (port : ℕ) (s : Soc)
      → let p = s.gpio.port port in
        let p' = sensed p in
        ((n : ℕ)
          → (bit p'.detect n ≡ (differs (bit p.in_reg n) (bit p.sense_inv n) && bit p.sense_mask n))
            × (bit p'.latch n ≡ (bit p.ldetect n || bit p'.detect n)))
        × (p'.ldetect ≡ p'.latch)
        × (p'.detect_signal ≡ signal p')
        × (nrf_gpio_eval_sense port s ≡ (
            if signal p' && not p.detect_signal
            then nrf_gpiote_port_event_raise port (with_port port p' s)
            else with_port port p' s))
  unfolding nrf_gpio_eval_sense
  eval_sense_lem port s =
      let p = s.gpio.port port in
      let facts = sensed_lem p 0 in
      (
        λ n. ((sensed_lem p n).0, (sensed_lem p n).1),
        facts.2,
        facts.3,
        ap
            (λ b.
              if b && not p.detect_signal
              then nrf_gpiote_port_event_raise port (with_port port (sensed p) s)
              else with_port port (sensed p) s)
            facts.3,
      )

  -- For latches of 32 bits: a write to LATCH clears the bits that are written 1 except those whose DETECT is
  -- up, LDETECT is the LATCH that results, the signal follows DETECT or LDETECT as DETECTMODE says, and the PORT event is raised exactly if something was
  -- written, a bit is left, and DETECTMODE is the latched one.
  pub regw_sideeffects_latch_lem :
      (port : ℕ) (s : Soc)
      → (s.gpio.port port).ldetect < 2 ^ 32
      → (s.gpio.port port).latch < 2 ^ 32
      → let p = s.gpio.port port in
        let p' = cleared_latch p in
        ((n : ℕ) → bit p'.latch n ≡ ((bit p.ldetect n && not (bit p.latch n)) || bit p.detect n))
        × (p'.ldetect ≡ p'.latch)
        × (p'.detect_signal ≡ signal p')
        × (nrf_gpio_regw_sideeffects_latch port s ≡ (
            if nonzero p.latch && (nonzero p'.latch && p'.detectmode == 1)
            then nrf_gpiote_port_event_raise port (with_port port p' s)
            else with_port port p' s))
  unfolding nrf_gpio_regw_sideeffects_latch
  regw_sideeffects_latch_lem port s fits written =
      let p = s.gpio.port port in
      let facts = cleared_latch_lem p 0 fits written in
      (
        λ n. (cleared_latch_lem p n fits written).0,
        facts.1,
        facts.2,
        ap
            (λ b.
              if nonzero p.latch && (nonzero b && (cleared_latch p).detectmode == 1)
              then nrf_gpiote_port_event_raise port (with_port port (cleared_latch p) s)
              else with_port port (cleared_latch p) s)
            facts.1,
      )
