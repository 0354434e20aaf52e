-- ===== src/Gpio/Backend.antt =====
-- src/HW_models/NRF_GPIO_backend.c: the short-circuits and the file of input changes; and nrf_gpio_init
-- of NRF_GPIO.c.
use ext_nrf52_hw_models.Common.{
  ℕ, zero, suc, ◌+◌, ◌-◌, ◌^◌, false, not, ◌||◌, Option, none, some, List, [], ◌∷◌, ltb, ◌==◌,
  if◌then◌else◌, update,
}
use ext_nrf52_hw_models.Soc.{Soc, Port, Gpio, InputLine, input_change, corrupted}
use ext_nrf52_hw_models.Soc.Env.{Env}
use ext_nrf52_hw_models.Top.{nrf_hw_find_next_timer_to_trigger}
use ext_nrf52_hw_models.Irq.{trace_error}
use ext_nrf52_hw_models.Gpio.Levels.{
  nrf_gpios, gpio_n_ports_pins, max_shorts, pin_exists, nrf_gpio_eval_input,
}

abbrev pub with_gpio : Gpio → Soc → Soc
with_gpio g s = record s { gpio = g }

-- The search of nrf_gpio_backend_register_short, over the entries from i on of which left remain.
unfoldable pub free_short : (left i : ℕ) → (ℕ → ℕ) → Option ℕ
free_short zero i ports = none
free_short (suc left) i ports =
    let rest = free_short left (i + 1) ports in if ports i == 255 then some i else rest

-- shorts[port][pin][i] = v
abbrev pub set_short : (port pin i v : ℕ) → (ℕ → ℕ → ℕ → ℕ) → ℕ → ℕ → ℕ → ℕ
set_short port pin i v shorts =
    update shorts port (update (shorts port) pin (update (shorts port pin) i v))

unfoldable pub nrf_gpio_backend_register_short : (port_out pin_out port_in pin_in : ℕ) → Soc → Soc
nrf_gpio_backend_register_short port_out pin_out port_in pin_in s =
    let g = s.gpio in
    elim (free_short max_shorts 0 (g.short_port port_out pin_out)) [
      | none ↦ trace_error s
      | some i ↦
          if not (pin_exists port_out pin_out) || not (pin_exists port_in pin_in)
          then trace_error s
          else with_gpio
              (record g {
                short_port = set_short port_out pin_out i port_in g.short_port;
                short_pin = set_short port_out pin_out i pin_in g.short_pin;
              })
              s
    ]

module _ ⦃env : Env⦄ where
  -- The file ended, or is corrupted.
  unfoldable pub close_input : Soc → Soc
  close_input s =
      nrf_hw_find_next_timer_to_trigger
        (record (with_gpio (record (s.gpio) { input_file_open = false }) s) {
          timer_gpio_input = env.time_never;
        })

  -- nrf_gpio_input_process_next_time on the next line; none is the end of the file.
  unfoldable pub nrf_gpio_input_process_next_time : Option InputLine → Soc → Soc
  nrf_gpio_input_process_next_time none s = close_input s
  nrf_gpio_input_process_next_time (some corrupted) s = close_input s
  nrf_gpio_input_process_next_time (some (input_change time port pin level)) s =
      if ltb time (env.tm_get_abs_time s) || not (pin_exists port pin) || ltb 1 level
      then trace_error s
      else nrf_hw_find_next_timer_to_trigger
          (record (with_gpio
            (record (s.gpio) { input_level = level == 1; input_pin = pin; input_port = port }) s) {
              timer_gpio_input = time;
            })

  -- readline: the next line leaves the file.
  abbrev pub first_line : List InputLine → Option InputLine
  first_line [] = none
  first_line (l ∷ rest) = some l

  abbrev pub rest_lines : List InputLine → List InputLine
  rest_lines [] = []
  rest_lines (l ∷ rest) = rest

  unfoldable pub nrf_gpio_input_event_triggered : Soc → Soc
  nrf_gpio_input_event_triggered s =
      let s1 = nrf_gpio_eval_input s.gpio.input_port s.gpio.input_pin s.gpio.input_level s in
      let s2 = with_gpio (record (s1.gpio) { input_file = rest_lines s1.gpio.input_file }) s1 in
      nrf_gpio_input_process_next_time (first_line s1.gpio.input_file) s2

  -- The registers of a port out of reset: every pin is disconnected.
  unfoldable pub init_port : ℕ → Port → Port
  init_port pins p = record p {
    out = 0;
    outset = 0;
    outclr = 0;
    in_reg = 0;
    dir = 0;
    dirset = 0;
    dirclr = 0;
    latch = 0;
    detectmode = 0;
    pin_cnf = λ n. if ltb n pins then 2 else 0;
    input_mask = 2 ^ 32 - 1;
  }

  -- nrf_gpio_init, and the memset of nrf_gpio_backend_init; the files are opened elsewhere.
  unfoldable pub nrf_gpio_init : Soc → Soc
  nrf_gpio_init s =
      let g = s.gpio in
      with_gpio
        (record g {
          port =
              λ p. if ltb p nrf_gpios then init_port (gpio_n_ports_pins p) (g.port p) else g.port p;
          short_port = λ port pin i. 255;
          short_pin = λ port pin i. 255;
        })
        s
