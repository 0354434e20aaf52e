-- ===== src/Soc/Pins.antt =====
-- The variables of src/HW_models/NRF_GPIO.c, NRF_GPIO_backend.c and NRF_GPIOTE.c.
use ext_nrf52_hw_models.Common.{ℕ, Bool, List}

-- NRF_GPIO.c: the registers and variables of one of the NRF_GPIOS ports.
pub record Port : Type 0 where
  pub out : ℕ
  pub outset : ℕ
  pub outclr : ℕ
  pub in_reg : ℕ  -- IN
  pub dir : ℕ
  pub dirset : ℕ
  pub dirclr : ℕ
  pub latch : ℕ
  pub detectmode : ℕ
  pub pin_cnf : ℕ → ℕ
  pub io_level : ℕ
  pub detect : ℕ
  pub ldetect : ℕ
  pub detect_signal : Bool
  pub input_mask : ℕ
  pub sense_mask : ℕ
  pub sense_inv : ℕ
  pub out_override : ℕ
  pub external_out : ℕ
  pub input_override : ℕ
  pub input_override_connected : ℕ
  pub dir_override : ℕ
  pub dir_override_set : ℕ
  -- per_intoggle_callbacks: is nrf_gpiote_input_change_ntf registered, the one callback there is?
  pub per_intoggle : ℕ → Bool
  pub o_level : ℕ  -- O_level of nrf_gpio_eval_outputs

-- A line of the file of input changes, as sscanf reads it.
pub data InputLine : Type 0 where
  input_change : (time port pin level : ℕ) → InputLine
  corrupted : InputLine

-- A line of the file of output changes.
pub record OutputChange : Type 0 where
  pub time : ℕ
  pub port : ℕ
  pub pin : ℕ
  pub level : Bool

pub record Gpio : Type 0 where
  pub port : ℕ → Port
  -- Is a test_intoggle_callback registered?
  pub test_intoggle : Bool
  -- shorts[port][pin][i].port and .pin of NRF_GPIO_backend.c
  pub short_port : ℕ → ℕ → ℕ → ℕ
  pub short_pin : ℕ → ℕ → ℕ → ℕ
  -- Is the output file open, and what is in it, the last line first.
  pub output_file_open : Bool
  pub output_file : List OutputChange
  -- gpio_input_file_st: the lines of the file that are still to be read, and the next change.
  pub input_file_open : Bool
  pub input_file : List InputLine
  pub input_port : ℕ
  pub input_pin : ℕ
  pub input_level : Bool

-- NRF_GPIOTE.c: struct gpiote_ch_status_t
pub record GpioteChannel : Type 0 where
  pub mode : ℕ
  pub port : ℕ
  pub pin : ℕ
  pub polarity : ℕ
  pub level : Bool

pub record Gpiote : Type 0 where
  pub inten : ℕ  -- GPIOTE_ITEN
  pub int_line : Bool
  pub channel : ℕ → GpioteChannel  -- gpiote_ch_status
  pub events_in : ℕ → ℕ
  pub events_port : ℕ
  pub tasks_out : ℕ → ℕ
  pub tasks_set : ℕ → ℕ
  pub tasks_clr : ℕ → ℕ
  pub intenset : ℕ
  pub intenclr : ℕ
  pub config : ℕ → ℕ
