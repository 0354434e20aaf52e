-- ===== src/GpioLaws/Drive.antt =====
-- The outputs of src/HW_models/NRF_GPIO.c: which pins are driven, and to what level.
use ext_nrf52_hw_models.Common.{
  ℕ, ◌^◌, ◌<◌, ◌≡◌, refl, ◌∙◌, ap, ap₂, Bool, true, false, not, ◌&&◌, ◌||◌, if◌then◌else◌, arith,
  bit_and, bit_or, clear32, not32,
}
use ext_nrf52_hw_models.Common.Bits.{bit, bit-and, bit-or, bit-not, bit_and-le, bit_or-lt}
use ext_nrf52_hw_models.Common.Clear.{bit-clear32}
use ext_nrf52_hw_models.Soc.{Port}
use ext_nrf52_hw_models.Gpio.{get_enabled_inputs, get_dir, get_out, driven}

-- The masks of a port are words of 32 bits.
record IsWord (p : Port) : Type 0 where
  io_level : p.io_level < 2 ^ 32
  dir_override : p.dir_override < 2 ^ 32
  dir : p.dir < 2 ^ 32
  dir_override_set : p.dir_override_set < 2 ^ 32
  out_override : p.out_override < 2 ^ 32
  input_override : p.input_override < 2 ^ 32
  input_mask : p.input_mask < 2 ^ 32

-- `(~mask & a) | (mask & b)` takes each bit from b where the mask has it, and from a otherwise.
select_bit :
    (mask a b n : ℕ)
    → n < 32
    → mask < 2 ^ 32
    → bit (bit_or (bit_and (not32 mask) a) (bit_and mask b)) n
      ≡ (if bit mask n then bit b n else bit a n)
select_bit mask a b n below fits =
    bit-or n (bit_and (not32 mask) a) (bit_and mask b)
    ∙ ap₂ (λ x y. x || y)
        (bit-and n (not32 mask) a ∙ ap (λ x. x && bit a n) (bit-not n 32 mask below fits))
        (bit-and n mask b)
    ∙ choose (bit mask n) (bit a n) (bit b n)
  where
    choose : (m x y : Bool) → ((not m && x) || (m && y)) ≡ (if m then y else x)
    choose true x y = refl
    choose false x y = ground arith

-- Is the pin driven by an output, and to what?
abbrev is_driven : Port → ℕ → Bool
is_driven p n = if bit p.dir_override n then bit p.dir_override_set n else bit p.dir n

abbrev output : Port → ℕ → Bool
output p n = if bit p.out_override n then bit p.external_out n else bit p.out n

get_dir-bit : (p : Port) (n : ℕ) → IsWord p → n < 32 → bit (get_dir p) n ≡ is_driven p n
unfolding get_dir
get_dir-bit p n w below = select_bit p.dir_override p.dir p.dir_override_set n below w.dir_override

get_out-bit : (p : Port) (n : ℕ) → IsWord p → n < 32 → bit (get_out p) n ≡ output p n
unfolding get_out
get_out-bit p n w below = select_bit p.out_override p.out p.external_out n below w.out_override

get_dir-lt : (p : Port) → IsWord p → get_dir p < 2 ^ 32
unfolding get_dir
get_dir-lt p w =
    bit_or-lt 32 (bit_and (not32 p.dir_override) p.dir) (bit_and p.dir_override p.dir_override_set)
      (omega (arith, bit_and-le (not32 p.dir_override) (not32 p.dir_override) p.dir (omega arith)))
      (omega (
        arith,
        bit_and-le p.dir_override p.dir_override p.dir_override_set (omega arith),
        w.dir_override,
      ))

-- For a port whose masks have 32 bits: where nrf_gpio_eval_outputs does not return early, its update of
-- IO_level, before the short-circuits and the inputs are evaluated, gives a pin that the GPIO or another
-- peripheral drives, as its overrides say, the level of that output, and leaves any other pin's level,
-- also where it was an output before.
driven_lem :
    (p : Port) (n : ℕ)
    → IsWord p
    → n < 32
    → (bit (driven p).io_level n ≡ (if is_driven p n then output p n else bit p.io_level n))
      × (bit (driven p).o_level n ≡ (is_driven p n && output p n))
unfolding driven
driven_lem p n w below =
    let new_output = bit_and (get_dir p) (get_out p) in
    let outputs : bit new_output n ≡ (is_driven p n && output p n) =
      bit-and n (get_dir p) (get_out p)
      ∙ ap₂ (λ x y. x && y) (get_dir-bit p n w below) (get_out-bit p n w below) in
    let others : bit (clear32 p.io_level (get_dir p)) n
        ≡ (bit p.io_level n && not (is_driven p n)) =
      bit-clear32 n p.io_level (get_dir p) w.io_level (get_dir-lt p w)
      ∙ ap (λ x. bit p.io_level n && not x) (get_dir-bit p n w below) in
    (
      bit-or n (clear32 p.io_level (get_dir p)) new_output
          ∙ ap₂ (λ x y. x || y) others outputs
          ∙ merge (is_driven p n) (output p n) (bit p.io_level n),
      outputs,
    )
  where
    merge : (d o x : Bool) → ((x && not d) || (d && o)) ≡ (if d then o else x)
    merge true o x = ground arith
    merge false o x = ground arith

-- For a port whose masks have 32 bits: a pin's input is enabled exactly if the peripheral that owns it has
-- connected it, or, where none owns it, if PIN_CNF does not disconnect it.
get_enabled_inputs_lem :
    (p : Port) (n : ℕ)
    → IsWord p
    → n < 32
    → bit (get_enabled_inputs p) n ≡ (
        if bit p.input_override n
        then bit p.input_override_connected n
        else not (bit p.input_mask n))
unfolding get_enabled_inputs
get_enabled_inputs_lem p n w below =
    select_bit p.input_override (not32 p.input_mask) p.input_override_connected n below
      w.input_override
    ∙ ap (λ x. if bit p.input_override n then bit p.input_override_connected n else x)
        (bit-not n 32 p.input_mask below w.input_mask)
