-- ===== src/Gpio/Registers.antt =====
-- src/HW_models/NRF_GPIO.c: what other peripherals call, and the side effects of register writes.
use ext_nrf52_hw_models.Common.{
  ℕ, ◌/◌, ◌%◌, ◌^◌, Bool, true, false, not, ◌&&◌, ◌||◌, Option, none, some, ◌==◌, if◌then◌else◌,
  nonzero, bit_and, bit_or, bit_xor, clear32, update, for_range,
}
use ext_nrf52_hw_models.Soc.{Soc, Port}
use ext_nrf52_hw_models.Soc.Env.{Env}
use ext_nrf52_hw_models.Irq.{trace_error}
use ext_nrf52_hw_models.Gpiote.Events.{nrf_gpiote_port_event_raise}
use ext_nrf52_hw_models.Gpio.Levels.{
  gpio_n_ports_pins, with_port, level_of, put, pin_exists, nrf_gpio_update_detect_signal,
  nrf_gpio_eval_sense, nrf_gpio_eval_inputs, nrf_gpio_eval_outputs,
}

-- The parts of nrf_gpio_peri_pin_control, for one pin. A negative argument is none.
unfoldable pub override_out : ℕ → Option ℕ → Port → Port
override_out n none p = p
override_out n (some o) p = record p { out_override = put n (nonzero o) p.out_override }

unfoldable pub override_in : ℕ → Option ℕ → Port → Port
override_in n none p = p
override_in n (some i) p = record p {
  input_override = put n (nonzero i) p.input_override;
  input_override_connected = put n (i == 3) p.input_override_connected;
}

unfoldable pub override_direction : ℕ → Option ℕ → Port → Port
override_direction n none p = p
override_direction n (some d) p = record p {
  dir_override = put n (nonzero d) p.dir_override;
  dir_override_set = put n (d == 3) p.dir_override_set;
}

unfoldable pub set_external : ℕ → Option ℕ → Port → Port
set_external n none p = p
set_external n (some l) p = record p { external_out = put n (nonzero l) p.external_out }

-- Is the argument not negative?
abbrev pub is_given : Option ℕ → Bool
is_given none = false
is_given (some v) = true

-- Bit n of a mask becomes the lowest bit of b, as `if (b != ((x >> n) & 0x1)) x ^= 1 << n` does.
abbrev pub match_bit : ℕ → Bool → ℕ → ℕ
match_bit n b x =
    if (b && not (level_of x n)) || (not b && level_of x n) then bit_xor x (2 ^ n) else x

-- Does it toggle?
abbrev pub mismatch : ℕ → Bool → ℕ → Bool
mismatch n b x = (b && not (level_of x n)) || (not b && level_of x n)

-- nrf_gpio_regw_sideeffects_LATCH up to its call of the GPIOTE.
unfoldable pub cleared_latch : Port → Port
cleared_latch p =
    let ldetect = bit_or (clear32 p.ldetect p.latch) p.detect in
    nrf_gpio_update_detect_signal (record p { ldetect = ldetect; latch = ldetect })

module _ ⦃env : Env⦄ where
  unfoldable pub nrf_gpio_peri_pin_control :
      (port n : ℕ) (override_output override_input override_dir : Option ℕ) (fptr : Bool)
      (new_level : Option ℕ)
      → Soc
      → Soc
  nrf_gpio_peri_pin_control port n override_output override_input override_dir fptr new_level s =
      let p1 = override_out n override_output (s.gpio.port port) in
      let p2 = override_direction n override_dir (override_in n override_input p1) in
      let p3 = record p2 { per_intoggle = update p2.per_intoggle n fptr } in
      let s1 = with_port port (set_external n new_level p3) s in
      let s2 =
        if is_given override_output || is_given override_dir || is_given new_level
        then nrf_gpio_eval_outputs port s1
        else s1 in
      if not (pin_exists port n)
      then trace_error s
      else if is_given override_input
      then nrf_gpio_eval_inputs port s2
      else s2

  unfoldable pub nrf_gpio_peri_change_output : (port n : ℕ) → Bool → Soc → Soc
  nrf_gpio_peri_change_output port n value s =
      let p = s.gpio.port port in
      if not (pin_exists port n) || not (level_of p.out_override n)
      then trace_error s
      else nrf_gpio_eval_outputs port
          (with_port port (record p { external_out = put n value p.external_out }) s)

  unfoldable pub nrf_gpio_regw_sideeffects_out : ℕ → Soc → Soc
  nrf_gpio_regw_sideeffects_out port s = nrf_gpio_eval_outputs port s

  unfoldable pub nrf_gpio_regw_sideeffects_outset : ℕ → Soc → Soc
  nrf_gpio_regw_sideeffects_outset port s =
      let p = s.gpio.port port in
      let s1 =
        if nonzero p.outset
        then nrf_gpio_eval_outputs port
            (with_port port (record p { out = bit_or p.out p.outset }) s)
        else s in
      let p1 = s1.gpio.port port in with_port port (record p1 { outset = p1.out }) s1

  unfoldable pub nrf_gpio_regw_sideeffects_outclr : ℕ → Soc → Soc
  nrf_gpio_regw_sideeffects_outclr port s =
      let p = s.gpio.port port in
      if nonzero p.outclr
      then nrf_gpio_eval_outputs port
          (with_port port (record p { out = clear32 p.out p.outclr; outclr = 0 }) s)
      else s

  -- PIN_CNF[n].DIR mirrors bit n of DIR.
  unfoldable pub mirror_dir : ℕ → Port → Port
  mirror_dir pins p =
      for_range pins 0
        (λ n q. record q {
          pin_cnf =
              update q.pin_cnf n
                (bit_or (clear32 (q.pin_cnf n) env.mdk.gpio_pin_cnf_dir_msk) (q.dir / 2 ^ n % 2));
        })
        p

  unfoldable pub nrf_gpio_regw_sideeffects_dir : ℕ → Soc → Soc
  nrf_gpio_regw_sideeffects_dir port s =
      nrf_gpio_eval_outputs port
        (with_port port (mirror_dir (gpio_n_ports_pins port) (s.gpio.port port)) s)

  unfoldable pub nrf_gpio_regw_sideeffects_dirset : ℕ → Soc → Soc
  nrf_gpio_regw_sideeffects_dirset port s =
      let p = s.gpio.port port in
      let s1 =
        if nonzero p.dirset
        then nrf_gpio_regw_sideeffects_dir port
            (with_port port (record p { dir = bit_or p.dir p.dirset }) s)
        else s in
      let p1 = s1.gpio.port port in with_port port (record p1 { dirset = p1.dir }) s1

  unfoldable pub nrf_gpio_regw_sideeffects_dirclr : ℕ → Soc → Soc
  nrf_gpio_regw_sideeffects_dirclr port s =
      let p = s.gpio.port port in
      if nonzero p.dirclr
      then nrf_gpio_regw_sideeffects_dir port
          (with_port port (record p { dir = clear32 p.dir p.dirclr; dirclr = 0 }) s)
      else s

  unfoldable pub nrf_gpio_regw_sideeffects_latch : ℕ → Soc → Soc
  nrf_gpio_regw_sideeffects_latch port s =
      let sw_input = (s.gpio.port port).latch in
      let p = cleared_latch (s.gpio.port port) in
      let s1 = with_port port p s in
      if nonzero sw_input && (nonzero p.ldetect && p.detectmode == 1)
      then nrf_gpiote_port_event_raise port s1
      else s1

  unfoldable pub nrf_gpio_regw_sideeffects_detectmode : ℕ → Soc → Soc
  nrf_gpio_regw_sideeffects_detectmode port s = nrf_gpio_eval_sense port s

  -- The fields of PIN_CNF[n] that the model reads: DIR, INPUT and the two bits of SENSE.
  abbrev pub cnf_dir : ℕ → Port → Bool
  cnf_dir n p = nonzero (bit_and (p.pin_cnf n) env.mdk.gpio_pin_cnf_dir_msk)

  abbrev pub cnf_input : ℕ → Port → Bool
  cnf_input n p =
      nonzero
        (bit_and (p.pin_cnf n) env.mdk.gpio_pin_cnf_input_msk / 2 ^ env.mdk.gpio_pin_cnf_input_pos)

  abbrev pub cnf_sense : ℕ → Port → ℕ
  cnf_sense n p =
      bit_and (p.pin_cnf n) env.mdk.gpio_pin_cnf_sense_msk / 2 ^ env.mdk.gpio_pin_cnf_sense_pos

  -- nrf_gpio_regw_sideeffects_PIN_CNF up to its calls.
  unfoldable pub configured : ℕ → Port → Port
  configured n p = record p {
    dir = match_bit n (cnf_dir n p) p.dir;
    input_mask = match_bit n (cnf_input n p) p.input_mask;
    sense_mask = match_bit n (level_of (cnf_sense n p) 1) p.sense_mask;
    sense_inv = match_bit n (level_of (cnf_sense n p) 0) p.sense_inv;
  }

  unfoldable pub nrf_gpio_regw_sideeffects_pin_cnf : (port n : ℕ) → Soc → Soc
  nrf_gpio_regw_sideeffects_pin_cnf port n s =
      let p = s.gpio.port port in
      let s1 = with_port port (configured n p) s in
      let s2 = if mismatch n (cnf_dir n p) p.dir then nrf_gpio_eval_outputs port s1 else s1 in
      let s3 =
        if mismatch n (cnf_input n p) p.input_mask then nrf_gpio_eval_inputs port s2 else s2 in
      if mismatch n (level_of (cnf_sense n p) 1) p.sense_mask
        || mismatch n (level_of (cnf_sense n p) 0) p.sense_inv
      then nrf_gpio_eval_sense port s3
      else s3
