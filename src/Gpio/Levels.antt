-- ===== src/Gpio/Levels.antt =====
-- src/HW_models/NRF_GPIO.c: the levels of the pins, what they are computed from, and what a change of
-- one calls; with nrf_gpio_backend_short_propagate of NRF_GPIO_backend.c, which is called between them.
use ext_nrf52_hw_models.Common.{
  ℕ, zero, suc, ◌+◌, ◌/◌, ◌%◌, ◌^◌, Bool, not, ◌&&◌, ◌||◌, [], ◌∷◌, ltb, ◌==◌, if◌then◌else◌,
  nonzero, bit_and, bit_or, bit_xor, clear32, not32, get_or, update, for_range,
}
use ext_nrf52_hw_models.Soc.{Soc, Port, OutputChange}
use ext_nrf52_hw_models.Soc.Env.{Env}
use ext_nrf52_hw_models.Irq.{trace_error}
use ext_nrf52_hw_models.Gpiote.Events.{nrf_gpiote_port_event_raise, nrf_gpiote_input_change_ntf}

abbrev pub nrf_gpios : ℕ
nrf_gpios = 2

-- GPIO_n_ports_pins[port]
abbrev pub gpio_n_ports_pins : ℕ → ℕ
gpio_n_ports_pins port = get_or (32 ∷ 10 ∷ []) port 0

abbrev pub max_shorts : ℕ
max_shorts = 8

abbrev pub with_port : ℕ → Port → Soc → Soc
with_port p x s = record s { gpio = record (s.gpio) { port = update s.gpio.port p x } }

-- (x >> n) & 0x1, as a truth value.
abbrev pub level_of : ℕ → ℕ → Bool
level_of x n = x / 2 ^ n % 2 == 1

-- x &= ~(1 << n); x |= b << n
abbrev pub put : ℕ → Bool → ℕ → ℕ
put n b x = bit_or (clear32 x (2 ^ n)) (if b then 2 ^ n else 0)

-- CHECK_PIN_EXISTS ends the process where this is false.
abbrev pub pin_exists : (port n : ℕ) → Bool
pin_exists port n = ltb port nrf_gpios && ltb n (gpio_n_ports_pins port)

unfoldable pub nrf_gpio_get_pin_level : (port n : ℕ) → Soc → Bool
nrf_gpio_get_pin_level port n s = level_of (s.gpio.port port).io_level n

unfoldable pub nrf_gpio_get_in : (port n : ℕ) → Soc → Bool
nrf_gpio_get_in port n s = level_of (s.gpio.port port).in_reg n

unfoldable pub nrf_gpio_get_detect_level : ℕ → Soc → Bool
nrf_gpio_get_detect_level port s = (s.gpio.port port).detect_signal

-- The masks are words of 32 bits, so that ~x & y is y without the bits of x.
unfoldable pub get_enabled_inputs : Port → ℕ
get_enabled_inputs p =
    bit_or (bit_and (not32 p.input_override) (not32 p.input_mask))
      (bit_and p.input_override p.input_override_connected)

unfoldable pub get_dir : Port → ℕ
get_dir p =
    bit_or (bit_and (not32 p.dir_override) p.dir) (bit_and p.dir_override p.dir_override_set)

unfoldable pub nrf_gpio_update_detect_signal : Port → Port
nrf_gpio_update_detect_signal p =
    if p.detectmode == 0
    then record p { detect_signal = nonzero p.detect }
    else record p { detect_signal = nonzero p.ldetect }

-- nrf_gpio_eval_sense up to its call of the GPIOTE.
unfoldable pub sensed : Port → Port
sensed p =
    let detect = bit_and (bit_xor p.in_reg p.sense_inv) p.sense_mask in
    let ldetect = bit_or p.ldetect detect in
    nrf_gpio_update_detect_signal (record p { detect = detect; ldetect = ldetect; latch = ldetect })

-- out of nrf_gpio_eval_outputs
unfoldable pub get_out : Port → ℕ
get_out p = bit_or (bit_and (not32 p.out_override) p.out) (bit_and p.out_override p.external_out)

-- nrf_gpio_eval_outputs from `O_level[port] = new_output` up to its loop.
unfoldable pub driven : Port → Port
driven p =
    let dir = get_dir p in
    let new_output = bit_and dir (get_out p) in
    record p { o_level = new_output; io_level = bit_or (clear32 p.io_level dir) new_output }

module _ ⦃env : Env⦄ where
  unfoldable pub nrf_gpio_eval_sense : ℕ → Soc → Soc
  nrf_gpio_eval_sense port s =
      let before = s.gpio.port port in
      let after = sensed before in
      let s1 = with_port port after s in
      if after.detect_signal && not before.detect_signal
      then nrf_gpiote_port_event_raise port s1
      else s1

  unfoldable pub nrf_gpio_input_change_sideeffects : (port n : ℕ) → Soc → Soc
  nrf_gpio_input_change_sideeffects port n s =
      let s1 =
        if (s.gpio.port port).per_intoggle n
        then nrf_gpiote_input_change_ntf port n (nrf_gpio_get_in port n s) s
        else s in
      if s1.gpio.test_intoggle
      then env.test_intoggle_callback port n (nrf_gpio_get_in port n s1) s1
      else s1

  -- The loop over the bits of diff, lowest first, by __builtin_ffs.
  unfoldable pub for_each_bit : ℕ → (ℕ → Soc → Soc) → Soc → Soc
  for_each_bit diff call s = for_range 32 0 (λ n t. if level_of diff n then call n t else t) s

  unfoldable pub nrf_gpio_eval_inputs : ℕ → Soc → Soc
  nrf_gpio_eval_inputs port s =
      let p = s.gpio.port port in
      let new_in = bit_and p.io_level (get_enabled_inputs p) in
      let diff = bit_xor new_in p.in_reg in
      nrf_gpio_eval_sense port (
        for_each_bit diff (nrf_gpio_input_change_sideeffects port)
          (with_port port (record p { in_reg = new_in }) s))

  unfoldable pub nrf_gpio_eval_input : (port n : ℕ) → Bool → Soc → Soc
  nrf_gpio_eval_input port n value s =
      let p = s.gpio.port port in
      let same = (level_of p.io_level n && value) || (not (level_of p.io_level n) && not value) in
      if not (pin_exists port n)
      then trace_error s
      else if level_of (get_dir p) n || same
      then s
      else nrf_gpio_eval_inputs port
          (with_port port (record p { io_level = bit_xor p.io_level (2 ^ n) }) s)

  unfoldable pub nrf_gpio_test_change_pin_level : (port n : ℕ) → Bool → Soc → Soc
  nrf_gpio_test_change_pin_level port n value s = nrf_gpio_eval_input port n value s

  -- The loop of nrf_gpio_backend_short_propagate, over the shorts from i on of which left remain.
  unfoldable pub propagate_from : (left i : ℕ) → (port n : ℕ) → Bool → Soc → Soc
  propagate_from zero i port n value s = s
  propagate_from (suc left) i port n value s =
      let g = s.gpio in
      let next =
        propagate_from left (i + 1) port n value
          (nrf_gpio_eval_input (g.short_port port n i) (g.short_pin port n i) value s) in
      if g.short_port port n i == 255 then s else next

  unfoldable pub nrf_gpio_backend_short_propagate : (port n : ℕ) → Bool → Soc → Soc
  nrf_gpio_backend_short_propagate port n value s = propagate_from max_shorts 0 port n value s

  unfoldable pub nrf_gpio_backend_write_output_change : (port n : ℕ) → Bool → Soc → Soc
  nrf_gpio_backend_write_output_change port n value s =
      let line : OutputChange = record {
        time = env.tm_get_abs_time s;
        port = port;
        pin = n;
        level = value;
      } in
      if s.gpio.output_file_open
      then record s { gpio = record (s.gpio) { output_file = line ∷ s.gpio.output_file } }
      else s

  unfoldable pub nrf_gpio_output_change_sideeffects : (port n : ℕ) → Bool → Soc → Soc
  nrf_gpio_output_change_sideeffects port n value s =
      nrf_gpio_backend_short_propagate port n value
        (nrf_gpio_backend_write_output_change port n value s)

  unfoldable pub nrf_gpio_eval_outputs : ℕ → Soc → Soc
  nrf_gpio_eval_outputs port s =
      let p = s.gpio.port port in
      let new_output = bit_and (get_dir p) (get_out p) in
      let diff = bit_xor new_output p.o_level in
      if diff == 0
      then s
      else nrf_gpio_eval_inputs port (
          for_each_bit diff (λ n. nrf_gpio_output_change_sideeffects port n (level_of new_output n))
            (with_port port (driven p) s))
