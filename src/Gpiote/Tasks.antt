-- ===== src/Gpiote/Tasks.antt =====
-- src/HW_models/NRF_GPIOTE.c: the tasks and the side effects of register writes. The functions that the
-- file generates for the PPI are the tasks at constant arguments.
use ext_nrf52_hw_models.Common.{
  ℕ, ◌/◌, ◌^◌, Bool, true, false, not, ◌&&◌, ◌||◌, none, some, ◌==◌, if◌then◌else◌, nonzero,
  bit_and, bit_or, clear32, update,
}
use ext_nrf52_hw_models.Soc.{Soc, GpioteChannel, Gpiote}
use ext_nrf52_hw_models.Soc.Env.{Env}
use ext_nrf52_hw_models.Irq.{trace_error}
use ext_nrf52_hw_models.Gpiote.Events.{
  with_gpiote, with_channel, known_polarity, nrf_gpiote_eval_interrupt,
}
use ext_nrf52_hw_models.Gpio.{
  nrf_gpio_get_pin_level, nrf_gpio_peri_pin_control, nrf_gpio_peri_change_output,
}

module _ ⦃env : Env⦄ where
  -- sc->level = level, and the call of the GPIO.
  abbrev pub drive : ℕ → Bool → Soc → Soc
  drive n level s =
      let c = s.gpiote.channel n in
      nrf_gpio_peri_change_output c.port c.pin level (with_channel n (record c { level = level }) s)

  -- The level that the switch of nrf_gpiote_TASKS_OUT sets.
  abbrev pub out_level : GpioteChannel → Bool
  out_level c =
      if c.polarity == env.mdk.gpiote_config_polarity_lo_to_hi
      then true
      else if c.polarity == env.mdk.gpiote_config_polarity_hi_to_lo
      then false
      else not c.level

  unfoldable pub nrf_gpiote_tasks_out : ℕ → Soc → Soc
  nrf_gpiote_tasks_out n s =
      let c = s.gpiote.channel n in
      if not (c.mode == env.mdk.gpiote_config_mode_task)
        || c.polarity == env.mdk.gpiote_config_polarity_none
      then s
      else if not (known_polarity c.polarity)
      then trace_error s
      else drive n (out_level c) s

  unfoldable pub nrf_gpiote_tasks_set : ℕ → Soc → Soc
  nrf_gpiote_tasks_set n s =
      if not ((s.gpiote.channel n).mode == env.mdk.gpiote_config_mode_task)
      then s
      else drive n true s

  unfoldable pub nrf_gpiote_tasks_clr : ℕ → Soc → Soc
  nrf_gpiote_tasks_clr n s =
      if not ((s.gpiote.channel n).mode == env.mdk.gpiote_config_mode_task)
      then s
      else drive n false s

  unfoldable pub nrf_gpiote_regw_sideeffects_tasks_out : ℕ → Soc → Soc
  nrf_gpiote_regw_sideeffects_tasks_out n s =
      let g = s.gpiote in
      if nonzero (g.tasks_out n)
      then nrf_gpiote_tasks_out n (with_gpiote (record g { tasks_out = update g.tasks_out n 0 }) s)
      else s

  unfoldable pub nrf_gpiote_regw_sideeffects_tasks_set : ℕ → Soc → Soc
  nrf_gpiote_regw_sideeffects_tasks_set n s =
      let g = s.gpiote in
      if nonzero (g.tasks_set n)
      then nrf_gpiote_tasks_set n (with_gpiote (record g { tasks_set = update g.tasks_set n 0 }) s)
      else s

  unfoldable pub nrf_gpiote_regw_sideeffects_tasks_clr : ℕ → Soc → Soc
  nrf_gpiote_regw_sideeffects_tasks_clr n s =
      let g = s.gpiote in
      if nonzero (g.tasks_clr n)
      then nrf_gpiote_tasks_clr n (with_gpiote (record g { tasks_clr = update g.tasks_clr n 0 }) s)
      else s

  unfoldable pub nrf_gpiote_regw_sideeffects_events_in : ℕ → Soc → Soc
  nrf_gpiote_regw_sideeffects_events_in n s = nrf_gpiote_eval_interrupt s

  unfoldable pub nrf_gpiote_regw_sideeffects_events_port : Soc → Soc
  nrf_gpiote_regw_sideeffects_events_port s = nrf_gpiote_eval_interrupt s

  unfoldable pub nrf_gpiote_regw_sideeffects_intenset : Soc → Soc
  nrf_gpiote_regw_sideeffects_intenset s =
      let g = s.gpiote in
      let enabled = bit_or g.inten g.intenset in
      if nonzero g.intenset
      then nrf_gpiote_eval_interrupt
          (with_gpiote (record g { inten = enabled; intenset = enabled }) s)
      else s

  unfoldable pub nrf_gpiote_regw_sideeffects_intenclr : Soc → Soc
  nrf_gpiote_regw_sideeffects_intenclr s =
      let g = s.gpiote in
      if nonzero g.intenclr
      then nrf_gpiote_eval_interrupt
          (with_gpiote (record g { inten = clear32 g.inten g.intenclr; intenclr = 0 }) s)
      else s

  -- A field of CONFIG[n].
  abbrev pub config_field : ℕ → (msk pos : ℕ) → Soc → ℕ
  config_field n msk pos s = bit_and (s.gpiote.config n) msk / 2 ^ pos

  -- What CONFIG[n] asks for; the level stays as it is.
  unfoldable pub configured_channel : ℕ → Soc → GpioteChannel
  configured_channel n s = record (s.gpiote.channel n) {
    mode = bit_and (s.gpiote.config n) env.mdk.gpiote_config_mode_msk;
    port = config_field n env.mdk.gpiote_config_port_msk env.mdk.gpiote_config_port_pos s;
    pin = config_field n env.mdk.gpiote_config_psel_msk env.mdk.gpiote_config_psel_pos s;
    polarity =
        config_field n env.mdk.gpiote_config_polarity_msk env.mdk.gpiote_config_polarity_pos s;
  }

  -- Is the pin that the channel had to be given back?
  abbrev pub disconnects : (old new : GpioteChannel) → Bool
  disconnects old new =
      not (new.port == old.port)
      || (not (new.pin == old.pin)
          || (new.mode == env.mdk.gpiote_config_mode_disabled
              && not (old.mode == env.mdk.gpiote_config_mode_disabled)))

  unfoldable pub nrf_gpiote_regw_sideeffects_config : ℕ → Soc → Soc
  nrf_gpiote_regw_sideeffects_config n s =
      let old = s.gpiote.channel n in
      let new = configured_channel n s in
      let outinit =
        config_field n env.mdk.gpiote_config_outinit_msk env.mdk.gpiote_config_outinit_pos s in
      let s1 =
        if disconnects old new
        then nrf_gpio_peri_pin_control old.port old.pin (some 0) (some 0) (some 0) false none s
        else s in
      -- sc->level as it is after that call.
      let kept = record new { level = (s1.gpiote.channel n).level } in
      let level = nrf_gpio_get_pin_level new.port new.pin s1 in
      if new.mode == env.mdk.gpiote_config_mode_event
      then nrf_gpio_peri_pin_control new.port new.pin (some 1) (some 3) (some 2) true none
          (with_channel n (record new { level = level }) s1)
      else if new.mode == env.mdk.gpiote_config_mode_task
      then nrf_gpio_peri_pin_control new.port new.pin (some 1) (some 2) (some 3) false
          (some outinit) (with_channel n (record new { level = nonzero outinit }) s1)
      else if not (new.mode == env.mdk.gpiote_config_mode_disabled)
      then trace_error s
      else with_channel n kept s1

  -- nrf_gpiote_init clears the registers alone.
  unfoldable pub nrf_gpiote_init : Gpiote → Gpiote
  nrf_gpiote_init g = record g {
    events_in = λ n. 0;
    events_port = 0;
    tasks_out = λ n. 0;
    tasks_set = λ n. 0;
    tasks_clr = λ n. 0;
    intenset = 0;
    intenclr = 0;
    config = λ n. 0;
  }
