-- ===== src/Temp.antt =====
-- src/HW_models/NRF_TEMP.c: the temperature sensor, at its initial temperature of 25 degrees.
use ext_nrf52_hw_models.Common.{
  ℕ, ◌+◌, ◌-◌, ◌*◌, true, false, if◌then◌else◌, nonzero, bit_and, add64,
}
use ext_nrf52_hw_models.Soc.{Soc, Temp}
use ext_nrf52_hw_models.Soc.Env.{Env}
use ext_nrf52_hw_models.Top.{nrf_hw_find_next_timer_to_trigger}
use ext_nrf52_hw_models.Irq.{hw_irq_ctrl_set_irq}

-- TEMP_EVENTS_DATARDY of NRF_PPI.h.
abbrev pub temp_events_datardy : ℕ
temp_events_datardy = 57

abbrev pub t_temp : ℕ
t_temp = 36

abbrev pub with_temp : Temp → Soc → Soc
with_temp t s = record s { temp = t }

unfoldable pub nrf_temp_task_start : Soc → Soc
nrf_temp_task_start s =
    if s.temp.hw_started
    then s
    else nrf_hw_find_next_timer_to_trigger
        (with_temp (record (s.temp) { hw_started = true; timer = add64 s.now t_temp }) s)

module _ ⦃env : Env⦄ where
  unfoldable pub nrf_temp_init : Temp → Temp
  nrf_temp_init t = record {
    timer = env.time_never;
    hw_started = false;
    inten = false;
    reading = 0;
    events_datardy = 0;
    tasks_start = 0;
    tasks_stop = 0;
    intenset = 0;
    intenclr = 0;
  }

  unfoldable pub nrf_temp_task_stop : Soc → Soc
  nrf_temp_task_stop s =
      nrf_hw_find_next_timer_to_trigger
        (with_temp (record (s.temp) { hw_started = false; timer = env.time_never }) s)

  unfoldable pub nrf_temp_regw_sideeffects_task_start : Soc → Soc
  nrf_temp_regw_sideeffects_task_start s =
      if nonzero (bit_and s.temp.tasks_start 1)
      then nrf_temp_task_start (with_temp (record (s.temp) { tasks_start = 0 }) s)
      else with_temp (record (s.temp) { tasks_start = bit_and s.temp.tasks_start 1 }) s

  unfoldable pub nrf_temp_regw_sideeffects_task_stop : Soc → Soc
  nrf_temp_regw_sideeffects_task_stop s =
      if nonzero (bit_and s.temp.tasks_stop 1)
      then nrf_temp_task_stop (with_temp (record (s.temp) { tasks_stop = 0 }) s)
      else with_temp (record (s.temp) { tasks_stop = bit_and s.temp.tasks_stop 1 }) s

  unfoldable pub nrf_temp_regw_sideeffects_intenset : Temp → Temp
  nrf_temp_regw_sideeffects_intenset t =
      let masked = bit_and t.intenset 1 in
      record t { intenset = masked; inten = if nonzero masked then true else t.inten }

  unfoldable pub nrf_temp_regw_sideeffects_intenclear : Temp → Temp
  nrf_temp_regw_sideeffects_intenclear t =
      let masked = bit_and t.intenclr 1 in
      if nonzero masked
      then record t { inten = false; intenset = 0; intenclr = 0 }
      else record t { intenclr = masked }

  -- The reading has two fractional bits, and the noise is -1, 0 or 1.
  unfoldable pub nrf_temp_timer_triggered : Soc → Soc
  nrf_temp_timer_triggered s =
      let reading = 25 * 4 + env.bs_random_uniform_ri_plus_one s - 1 in
      let s1 = nrf_hw_find_next_timer_to_trigger (
        with_temp
          (record (s.temp) { reading = reading; hw_started = false; timer = env.time_never }) s) in
      let s2 =
        env.nrf_ppi_event temp_events_datardy
          (with_temp (record (s1.temp) { events_datardy = 1 }) s1) in
      if s2.temp.inten then hw_irq_ctrl_set_irq env.mdk.temp_irqn s2 else s2
