-- ===== src/Rng.antt =====
-- src/HW_models/NRF_RNG.c: the random number generator.
use ext_nrf52_hw_models.Common.{
  ℕ, ◌+◌, Bool, true, false, if◌then◌else◌, nonzero, bit_and, u32, add64,
}
use ext_nrf52_hw_models.Soc.{Soc, Rng}
use ext_nrf52_hw_models.Soc.Env.{Env}
use ext_nrf52_hw_models.Top.{nrf_hw_find_next_timer_to_trigger}
use ext_nrf52_hw_models.Irq.{hw_irq_ctrl_set_irq}

-- RNG_EVENTS_VALRDY of NRF_PPI.h.
abbrev pub rng_events_valrdy : ℕ
rng_events_valrdy = 58

abbrev pub with_rng : Rng → Soc → Soc
with_rng r s = record s { rng = r }

-- The delay until the next number.
unfoldable pub rng_delay : Bool → Rng → ℕ
rng_delay first_time r = (if first_time then 128 else 0) + (if nonzero r.config then 120 else 30)

unfoldable pub nrf_rng_schedule_next : Bool → Soc → Soc
nrf_rng_schedule_next first_time s =
    nrf_hw_find_next_timer_to_trigger
      (with_rng (record (s.rng) { timer = add64 s.now (rng_delay first_time s.rng) }) s)

unfoldable pub nrf_rng_task_start : Soc → Soc
nrf_rng_task_start s =
    if s.rng.hw_started
    then s
    else nrf_rng_schedule_next true (with_rng (record (s.rng) { hw_started = true }) s)

module _ ⦃env : Env⦄ where
  unfoldable pub nrf_rng_init : Rng → Rng
  nrf_rng_init r = record {
    timer = env.time_never;
    hw_started = false;
    inten = false;
    config = 0;
    shorts = 0;
    value = 0;
    events_valrdy = 0;
    tasks_start = 0;
    tasks_stop = 0;
    intenset = 0;
    intenclr = 0;
  }

  unfoldable pub nrf_rng_task_stop : Soc → Soc
  nrf_rng_task_stop s =
      nrf_hw_find_next_timer_to_trigger
        (with_rng (record (s.rng) { hw_started = false; timer = env.time_never }) s)

  unfoldable pub nrf_rng_regw_sideeffects_task_start : Soc → Soc
  nrf_rng_regw_sideeffects_task_start s =
      if nonzero s.rng.tasks_start
      then nrf_rng_task_start (with_rng (record (s.rng) { tasks_start = 0 }) s)
      else s

  unfoldable pub nrf_rng_regw_sideeffects_task_stop : Soc → Soc
  nrf_rng_regw_sideeffects_task_stop s =
      if nonzero s.rng.tasks_stop
      then nrf_rng_task_stop (with_rng (record (s.rng) { tasks_stop = 0 }) s)
      else s

  unfoldable pub nrf_rng_regw_sideeffects_intenset : Soc → Soc
  nrf_rng_regw_sideeffects_intenset s =
      if nonzero s.rng.intenset then with_rng (record (s.rng) { inten = true }) s else s

  unfoldable pub nrf_rng_regw_sideeffects_intenclear : Soc → Soc
  nrf_rng_regw_sideeffects_intenclear s =
      if nonzero s.rng.intenclr
      then with_rng (record (s.rng) { inten = false; intenset = 0; intenclr = 0 }) s
      else s

  unfoldable pub nrf_rng_regw_sideeffects : Soc → Soc
  nrf_rng_regw_sideeffects s = nrf_rng_regw_sideeffects_intenclear (
      nrf_rng_regw_sideeffects_intenset
        (nrf_rng_regw_sideeffects_task_stop (nrf_rng_regw_sideeffects_task_start s)))

  unfoldable pub nrf_rng_timer_triggered : Soc → Soc
  nrf_rng_timer_triggered s =
      let s1 = with_rng (record (s.rng) { value = u32 (env.bs_random_uint32 s) }) s in
      let s2 =
        if nonzero (bit_and s1.rng.shorts 1)
        then nrf_rng_task_stop s1
        else nrf_rng_schedule_next false s1 in
      let s3 =
        env.nrf_ppi_event rng_events_valrdy (with_rng (record (s2.rng) { events_valrdy = 1 }) s2) in
      if s3.rng.inten then hw_irq_ctrl_set_irq env.mdk.rng_irqn s3 else s3
