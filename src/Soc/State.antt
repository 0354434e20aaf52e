-- ===== src/Soc/State.antt =====
-- The file-scope variables of each model under src/HW_models, one record to a file. An array that
-- is indexed by an instance or a channel is a function of the index.
use ext_nrf52_hw_models.Common.{ℕ, Bool}
use ext_nrf52_hw_models.Soc.Pins.{Gpio, Gpiote}
use ext_nrf52_hw_models.Soc.Routing.{Ppi, Aar}
use ext_nrf52_hw_models.Soc.Air.{Radio}
use ext_nrf52_hw_models.Soc.Crypt.{Ccm}

-- irq_ctrl.c
pub record IrqCtrl : Type 0 where
  pub timer : ℕ  -- Timer_irq_ctrl
  pub irq_lines : ℕ
  pub irq_status : ℕ
  pub irq_premask : ℕ
  pub irq_mask : ℕ
  pub irqs_locked : Bool
  pub lock_ignore : Bool
  pub irq_prio : ℕ → ℕ
  pub currently_running_prio : ℕ

-- NRF_TIMER.c: the registers and variables of one of the N_TIMERS instances.
pub record Tim : Type 0 where
  pub prescaler : ℕ
  pub bitmode : ℕ
  pub mode : ℕ
  pub shorts : ℕ
  pub intenset : ℕ
  pub intenclr : ℕ
  pub cc : ℕ → ℕ
  pub events_compare : ℕ → ℕ
  pub tasks_start : ℕ
  pub tasks_stop : ℕ
  pub tasks_shutdown : ℕ
  pub tasks_clear : ℕ
  pub tasks_count : ℕ
  pub tasks_capture : ℕ → ℕ
  pub inten : ℕ  -- TIMER_INTEN
  pub running : Bool  -- Timer_running
  pub start_t : ℕ  -- Timer_counter_startT
  pub counter : ℕ  -- Counter
  pub cc_timers : ℕ → ℕ  -- CC_timers
  pub int_line : Bool  -- TIMER_int_line

pub record Timers : Type 0 where
  pub timer : ℕ  -- Timer_TIMERs
  pub inst : ℕ → Tim

-- NRF_RTC.c: the registers and variables of one of the N_RTC instances.
pub record Rtc : Type 0 where
  pub prescaler : ℕ
  pub counter_reg : ℕ  -- COUNTER
  pub cc : ℕ → ℕ
  pub events_compare : ℕ → ℕ
  pub events_ovrflw : ℕ
  pub evten : ℕ
  pub evtenset : ℕ
  pub evtenclr : ℕ
  pub intenset : ℕ
  pub intenclr : ℕ
  pub tasks_start : ℕ
  pub tasks_stop : ℕ
  pub tasks_clear : ℕ
  pub tasks_trigovrflw : ℕ
  pub running : Bool  -- RTC_Running
  pub inten : ℕ  -- RTC_INTEN
  pub cc_timers : ℕ → ℕ
  pub overflow_timer : ℕ
  pub overflow_timer_sub_us : ℕ
  pub start_t_sub_us : ℕ  -- RTC_counter_startT_sub_us
  pub start_t_negative_sub_us : ℕ  -- RTC_counter_startT_negative_sub_us
  pub counter : ℕ

pub record Rtcs : Type 0 where
  pub timer : ℕ  -- Timer_RTC
  pub first_lf_tick_time_sub_us : ℕ
  pub inst : ℕ → Rtc

-- NRF_CLOCK.c
pub data ClockState : Type 0 where
  stopped starting started stopping : ClockState

pub record Clock : Type 0 where
  pub timer : ℕ  -- Timer_CLOCK
  pub timer_lf : ℕ
  pub timer_hf : ℕ
  pub timer_lf_cal : ℕ
  pub timer_caltimer : ℕ
  pub hf_state : ClockState
  pub lf_state : ClockState
  pub lf_cal_state : ClockState
  pub caltimer_state : ClockState
  pub int_line : Bool
  pub inten : ℕ
  pub intenset : ℕ
  pub intenclr : ℕ
  pub ctiv : ℕ
  pub hfclkrun : ℕ
  pub hfclkstat : ℕ
  pub lfclkrun : ℕ
  pub lfclkstat : ℕ
  pub lfclksrc : ℕ
  pub lfclksrccopy : ℕ
  pub hfxodebounce : ℕ
  pub ev_hfclkstarted : ℕ
  pub ev_lfclkstarted : ℕ
  pub ev_done : ℕ
  pub ev_ctto : ℕ
  pub ev_ctstarted : ℕ
  pub ev_ctstopped : ℕ
  pub tasks : ℕ → ℕ  -- TASKS_*, by ClockTask

-- NRF_RNG.c
pub record Rng : Type 0 where
  pub timer : ℕ
  pub hw_started : Bool
  pub inten : Bool
  pub config : ℕ
  pub shorts : ℕ
  pub value : ℕ
  pub events_valrdy : ℕ
  pub tasks_start : ℕ
  pub tasks_stop : ℕ
  pub intenset : ℕ
  pub intenclr : ℕ

-- NRF_TEMP.c
pub record Temp : Type 0 where
  pub timer : ℕ
  pub hw_started : Bool
  pub inten : Bool
  pub reading : ℕ  -- TEMP
  pub events_datardy : ℕ
  pub tasks_start : ℕ
  pub tasks_stop : ℕ
  pub intenset : ℕ
  pub intenclr : ℕ

-- NRF_AES_ECB.c
pub record Ecb : Type 0 where
  pub timer : ℕ
  pub inten : ℕ
  pub running : Bool
  pub t_ecb : ℕ
  pub ecbdataptr : ℕ
  pub events_endecb : ℕ
  pub events_errorecb : ℕ
  pub tasks_startecb : ℕ
  pub tasks_stopecb : ℕ
  pub intenset : ℕ
  pub intenclr : ℕ

-- NRF_EGU.c: one of the N_EGU instances.
pub record Egu : Type 0 where
  pub int_line : Bool  -- egu_int_line
  pub inten : ℕ
  pub intenset : ℕ
  pub intenclr : ℕ
  pub events_triggered : ℕ → ℕ
  pub tasks_trigger : ℕ → ℕ

-- NRF_NVMC.c
pub data FlashOp : Type 0 where
  flash_idle flash_write flash_erase flash_erase_partial flash_erase_uicr flash_erase_all : FlashOp

pub record Nvmc : Type 0 where
  pub timer : ℕ
  pub flash_op : FlashOp
  pub ready : ℕ
  pub readynext : ℕ
  pub config : ℕ
  pub erasepage : ℕ
  pub erasepcr0 : ℕ
  pub eraseuicr : ℕ
  pub eraseall : ℕ
  pub erasepagepartial : ℕ
  pub erasepagepartialcfg : ℕ
  pub erase_address : ℕ
  pub time_under_erase : ℕ → ℕ
  pub page_erased : ℕ → Bool
  pub flash : ℕ → ℕ  -- flash_st.storage, byte by byte
  pub uicr : ℕ → ℕ  -- uicr_st.storage, byte by byte
  pub uicr_base : ℕ  -- NRF_UICR_regs_p

-- bstest_ticker.c
pub record Ticker : Type 0 where
  pub timer : ℕ  -- Timer_event_fw_test_ticker
  pub awake_cpu_asap : ℕ
  pub internal : ℕ  -- Timer_event_fw_test_ticker_internal
  pub tick_period : ℕ  -- fw_test_ticker_tick_period

pub record Soc : Type 0 where
  -- The time that tm_get_hw_time gives; the time machine moves it between two calls of the models.
  pub now : ℕ
  -- bs_trace_error_* has ended the process. What a caller does after that has no meaning.
  pub halted : Bool
  -- NRF_HW_model_top.c
  pub main_timer : ℕ  -- timer_nrf_main_timer
  pub next_timer : ℕ  -- nrf_hw_next_timer_to_trigger
  pub notified : ℕ  -- calls of tm_find_next_timer_to_trigger
  pub fake_timer : ℕ  -- Timer_fake_timer of fake_timer.c
  pub ticker : Ticker
  pub irq : IrqCtrl
  pub rng : Rng
  pub temp : Temp
  pub nvmc : Nvmc
  pub ecb : Ecb
  pub clock : Clock
  pub rtcs : Rtcs
  pub timers : Timers
  pub egu : ℕ → Egu
  pub gpio : Gpio
  pub gpiote : Gpiote
  pub ppi : Ppi
  pub aar : Aar
  pub radio : Radio
  pub ccm : Ccm
  pub real_encryption_enabled : Bool  -- of BLECrypt_if.c
  pub ram : ℕ → ℕ  -- the memory that pointers in registers reach, byte by byte
  pub timer_aar : ℕ  -- Timer_AAR
  pub timer_gpio_input : ℕ  -- Timer_GPIO_input
  -- Timer_RADIO, Timer_RADIO_bitcounter and Timer_RADIO_abort_reeval
  pub timer_radio : ℕ
  pub timer_radio_bitcounter : ℕ
  pub timer_radio_abort_reeval : ℕ
