-- ===== src/Egu.antt =====
-- src/HW_models/NRF_EGU.c: the event generator units. The functions that the file generates for each
-- task are nrf_egu_task_trigger at constant arguments.
use ext_nrf52_hw_models.Common.{
  ℕ, ◌+◌, ◌^◌, ◌/◌, ◌%◌, Bool, true, false, not, ◌&&◌, ◌||◌, [], ◌∷◌, leb, ◌==◌, if◌then◌else◌,
  nonzero, bit_or, clear32, get_or, update, for_range,
}
use ext_nrf52_hw_models.Soc.{Soc, Egu}
use ext_nrf52_hw_models.Soc.Env.{Env}
use ext_nrf52_hw_models.Irq.{
  hw_irq_ctrl_raise_level_irq_line, hw_irq_ctrl_lower_level_irq_line, trace_error,
}

abbrev pub n_egu : ℕ
n_egu = 6

abbrev pub n_egu_events : ℕ
n_egu_events = 16

abbrev pub with_egu : ℕ → Egu → Soc → Soc
with_egu i e s = record s { egu = update s.egu i e }

-- The registers and variables of an instance after nrf_egu_init.
abbrev pub init_egu : Egu
init_egu = record {
  int_line = false;
  inten = 0;
  intenset = 0;
  intenclr = 0;
  events_triggered = λ i. 0;
  tasks_trigger = λ i. 0;
}

unfoldable pub nrf_egu_init : Soc → Soc
nrf_egu_init s = record s { egu = λ i. init_egu }

-- The loop of nrf_egu_eval_interrupt: new_egu_int_line.
unfoldable pub new_int_line : Egu → Bool
unfolding for_range
new_int_line e =
    for_range n_egu_events 0
      (λ i line. if e.inten / 2 ^ i % 2 == 1 && nonzero (e.events_triggered i) then true else line)
      false

module _ ⦃env : Env⦄ where
  unfoldable pub nrf_egu_eval_interrupt : ℕ → Soc → Soc
  unfolding new_int_line
  nrf_egu_eval_interrupt inst s =
      let e = s.egu inst in
      let line = new_int_line e in
      let irq = env.mdk.swi0_egu0_irqn + inst in
      if line && not e.int_line
      then hw_irq_ctrl_raise_level_irq_line irq (with_egu inst (record e { int_line = true }) s)
      else if not line && e.int_line
      then hw_irq_ctrl_lower_level_irq_line irq (with_egu inst (record e { int_line = false }) s)
      else s

  -- EGU<inst>_EVENTS_TRIGGERED_0 of NRF_PPI.h.
  abbrev pub egu_event_base : ℕ → ℕ
  egu_event_base inst = get_or (73 ∷ 89 ∷ 105 ∷ 121 ∷ 137 ∷ []) inst 153

  -- nrf_egu_check_inst_event ends the process where this is true.
  abbrev pub no_such_event : ℕ → ℕ → Bool
  no_such_event inst nbr = leb n_egu inst || leb n_egu_events nbr

  unfoldable pub nrf_egu_task_trigger : ℕ → ℕ → Soc → Soc
  nrf_egu_task_trigger inst task_nbr s =
      let e = s.egu inst in
      let triggered = record e { events_triggered = update e.events_triggered task_nbr 1 } in
      if no_such_event inst task_nbr
      then trace_error s
      else env.nrf_ppi_event (egu_event_base inst + task_nbr)
          (nrf_egu_eval_interrupt inst (with_egu inst triggered s))

  unfoldable pub nrf_egu_regw_sideeffect_intenset : ℕ → Soc → Soc
  nrf_egu_regw_sideeffect_intenset inst s =
      let e = s.egu inst in
      let enabled = bit_or e.inten e.intenset in
      if nonzero e.intenset
      then nrf_egu_eval_interrupt inst
          (with_egu inst (record e { inten = enabled; intenset = enabled }) s)
      else s

  unfoldable pub nrf_egu_regw_sideeffect_intenclr : ℕ → Soc → Soc
  nrf_egu_regw_sideeffect_intenclr inst s =
      let e = s.egu inst in
      let enabled = clear32 e.inten e.intenclr in
      if nonzero e.intenclr
      then nrf_egu_eval_interrupt inst
          (with_egu inst (record e { inten = enabled; intenset = enabled; intenclr = 0 }) s)
      else s

  unfoldable pub nrf_egu_regw_sideeffect_inten : ℕ → Soc → Soc
  nrf_egu_regw_sideeffect_inten inst s =
      nrf_egu_eval_interrupt inst
        (with_egu inst (record (s.egu inst) { intenset = (s.egu inst).inten }) s)

  unfoldable pub nrf_egu_regw_sideeffect_events_triggered : ℕ → ℕ → Soc → Soc
  nrf_egu_regw_sideeffect_events_triggered inst event_nbr s =
      if no_such_event inst event_nbr then trace_error s else nrf_egu_eval_interrupt inst s

  unfoldable pub nrf_egu_regw_sideeffects_task_trigger : ℕ → ℕ → Soc → Soc
  nrf_egu_regw_sideeffects_task_trigger inst task_nbr s =
      let e = s.egu inst in
      let taken = record e { tasks_trigger = update e.tasks_trigger task_nbr 0 } in
      if no_such_event inst task_nbr
      then trace_error s
      else if nonzero (e.tasks_trigger task_nbr)
      then nrf_egu_task_trigger inst task_nbr (with_egu inst taken s)
      else s
