-- ===== src/Ppi/Run.antt =====
-- src/HW_models/NRF_PPI.c: ppi_tasks_table, the task that each row calls, the queue's execution, and the
-- event that the models raise.
use ext_nrf52_hw_models.Common.{
  ℕ, zero, suc, ◌-◌, ◌/◌, ◌%◌, true, false, Option, none, some, List, [], ◌∷◌, ◌++◌, ltb, ◌==◌,
  if◌then◌else◌, nonzero, bit_and, length, get_or,
}
use ext_nrf52_hw_models.Soc.{
  Soc, txen, rxen, start, stop, disable, rssistart, rssistop, bcstart, bcstop, edstart, edstop,
  ccastart, ccastop,
}
use ext_nrf52_hw_models.Radio.{nrf_radio_task}
use ext_nrf52_hw_models.Soc.Env.{Env}
use ext_nrf52_hw_models.Irq.{trace_error}
use ext_nrf52_hw_models.Clock.{
  nrf_clock_tasks_lfclkstart, nrf_clock_tasks_lfclkstop, nrf_clock_tasks_hfclkstart,
  nrf_clock_tasks_hfclkstop, nrf_clock_tasks_cal, nrf_clock_tasks_ctstart, nrf_clock_tasks_ctstop,
}
use ext_nrf52_hw_models.Gpiote.Tasks.{
  nrf_gpiote_tasks_out, nrf_gpiote_tasks_set, nrf_gpiote_tasks_clr,
}
use ext_nrf52_hw_models.Timer.{
  nrf_timer_task_start, nrf_timer_task_stop, nrf_timer_task_capture, nrf_timer_task_clear,
  nrf_timer_task_count,
}
use ext_nrf52_hw_models.Rng.{nrf_rng_task_start, nrf_rng_task_stop}
use ext_nrf52_hw_models.Aar.{nrf_aar_task_start}
use ext_nrf52_hw_models.Ccm.{nrf_ccm_task_crypt, nrf_ccm_task_ksgen}
use ext_nrf52_hw_models.Egu.{nrf_egu_task_trigger}
use ext_nrf52_hw_models.Ppi.Routes.{with_ppi, nrf_ppi_task_chg_endis}
use ext_nrf52_hw_models.Ppi.Queue.{set_entry, enqueue_event}

module _ ⦃env : Env⦄ where
  -- The functions of ppi_tasks_table, by the groups of its rows.
  abbrev pub clock_tasks : List (Soc → Soc)
  clock_tasks =
      nrf_clock_tasks_lfclkstart ∷ nrf_clock_tasks_lfclkstop ∷ nrf_clock_tasks_hfclkstart
      ∷ nrf_clock_tasks_hfclkstop ∷ nrf_clock_tasks_cal ∷ nrf_clock_tasks_ctstart
      ∷ nrf_clock_tasks_ctstop ∷ []

  abbrev pub radio_tasks : List (Soc → Soc)
  radio_tasks =
      nrf_radio_task txen
      ∷ nrf_radio_task rxen
      ∷ nrf_radio_task start
      ∷ nrf_radio_task stop
      ∷ nrf_radio_task disable
      ∷ nrf_radio_task rssistart
      ∷ nrf_radio_task rssistop
      ∷ nrf_radio_task bcstart
      ∷ nrf_radio_task bcstop
      ∷ nrf_radio_task edstart
      ∷ nrf_radio_task edstop
      ∷ nrf_radio_task ccastart
      ∷ nrf_radio_task ccastop
      ∷ []

  abbrev pub gpiote_tasks : List (Soc → Soc)
  gpiote_tasks =
      nrf_gpiote_tasks_out 0
      ∷ nrf_gpiote_tasks_out 1
      ∷ nrf_gpiote_tasks_out 2
      ∷ nrf_gpiote_tasks_out 3
      ∷ nrf_gpiote_tasks_out 4
      ∷ nrf_gpiote_tasks_out 5
      ∷ nrf_gpiote_tasks_out 6
      ∷ nrf_gpiote_tasks_out 7
      ∷ nrf_gpiote_tasks_set 0
      ∷ nrf_gpiote_tasks_set 1
      ∷ nrf_gpiote_tasks_set 2
      ∷ nrf_gpiote_tasks_set 3
      ∷ nrf_gpiote_tasks_set 4
      ∷ nrf_gpiote_tasks_set 5
      ∷ nrf_gpiote_tasks_set 6
      ∷ nrf_gpiote_tasks_set 7
      ∷ nrf_gpiote_tasks_clr 0
      ∷ nrf_gpiote_tasks_clr 1
      ∷ nrf_gpiote_tasks_clr 2
      ∷ nrf_gpiote_tasks_clr 3
      ∷ nrf_gpiote_tasks_clr 4
      ∷ nrf_gpiote_tasks_clr 5
      ∷ nrf_gpiote_tasks_clr 6
      ∷ nrf_gpiote_tasks_clr 7
      ∷ []

  -- The rows of instance t of the TIMER, its capture tasks first.
  abbrev pub end_of_timer_tasks : ℕ → List (Soc → Soc)
  end_of_timer_tasks t =
      nrf_timer_task_clear t
      ∷ nrf_timer_task_count t
      ∷ nrf_timer_task_start t
      ∷ nrf_timer_task_stop t
      ∷ []

  abbrev pub four_captures : ℕ → List (Soc → Soc) → List (Soc → Soc)
  four_captures t rest =
      nrf_timer_task_capture t 0
      ∷ nrf_timer_task_capture t 1
      ∷ nrf_timer_task_capture t 2
      ∷ nrf_timer_task_capture t 3
      ∷ rest

  abbrev pub six_captures : ℕ → List (Soc → Soc) → List (Soc → Soc)
  six_captures t rest =
      four_captures t (nrf_timer_task_capture t 4 ∷ nrf_timer_task_capture t 5 ∷ rest)

  abbrev pub timer_tasks : List (Soc → Soc)
  timer_tasks =
      four_captures 0 (end_of_timer_tasks 0)
      ++ four_captures 1 (end_of_timer_tasks 1)
      ++ four_captures 2 (end_of_timer_tasks 2)
      ++ six_captures 3 (end_of_timer_tasks 3)
      ++ six_captures 4 (end_of_timer_tasks 4)

  abbrev pub rng_aar_ccm_tasks : List (Soc → Soc)
  rng_aar_ccm_tasks =
      nrf_rng_task_start ∷ nrf_rng_task_stop ∷ nrf_aar_task_start ∷ nrf_ccm_task_crypt ∷ []

  abbrev pub chg_tasks : List (Soc → Soc)
  chg_tasks =
      nrf_ppi_task_chg_endis 0 true
      ∷ nrf_ppi_task_chg_endis 1 true
      ∷ nrf_ppi_task_chg_endis 2 true
      ∷ nrf_ppi_task_chg_endis 3 true
      ∷ nrf_ppi_task_chg_endis 4 true
      ∷ nrf_ppi_task_chg_endis 5 true
      ∷ nrf_ppi_task_chg_endis 0 false
      ∷ nrf_ppi_task_chg_endis 1 false
      ∷ nrf_ppi_task_chg_endis 2 false
      ∷ nrf_ppi_task_chg_endis 3 false
      ∷ nrf_ppi_task_chg_endis 4 false
      ∷ nrf_ppi_task_chg_endis 5 false
      ∷ []

  -- The generated rows of the EGU, of which row is the number from the first on.
  abbrev pub egu_task : ℕ → Soc → Soc
  egu_task row s = nrf_egu_task_trigger (row / 16) (row % 16) s

  -- The function that a task stands for: the EGU's follow the 104 rows of the lists above, and
  -- nrf_ccm_TASK_KSGEN, which has no row, is 200.
  unfoldable pub run_task : ℕ → Soc → Soc
  run_task task s =
      let table =
        clock_tasks ++ radio_tasks ++ gpiote_tasks ++ timer_tasks ++ rng_aar_ccm_tasks
        ++ chg_tasks in
      if ltb task 104
      then get_or table task trace_error s
      else if ltb task 200
      then egu_task (task - 104) s
      else if task == 200
      then nrf_ccm_task_ksgen s
      else trace_error s

  -- if (tasks_queue.q[i]): the entry is set to NULL and its task called.
  unfoldable pub call_entry : Option ℕ → ℕ → Soc → Soc
  call_entry none i s = s
  call_entry (some task) i s =
      run_task task (with_ppi (record (s.ppi) { queue = set_entry s.ppi.queue i }) s)

  -- The body of the loop of nrf_ppi_dequeue_all_tasks.
  unfoldable pub run_entry : ℕ → Soc → Soc
  run_entry i s = call_entry (get_or s.ppi.queue i none) i s

  -- The loop from entry i on, on fuel; a task may raise an event, which changes the queue.
  unfoldable pub dequeue_from : (fuel i : ℕ) → Soc → Soc
  dequeue_from zero i s = s
  dequeue_from (suc fuel) i s =
      let rest = dequeue_from fuel (suc i) (run_entry i s) in
      if ltb i (length s.ppi.queue) then rest else with_ppi (record (s.ppi) { queue = [] }) s

  unfoldable pub nrf_ppi_dequeue_all_tasks : Soc → Soc
  nrf_ppi_dequeue_all_tasks s = dequeue_from (suc (length s.ppi.queue)) 0 s

  unfoldable pub nrf_ppi_event : ℕ → Soc → Soc
  nrf_ppi_event event s =
      let ch_mask = bit_and (s.ppi.evt_to_ch event) s.ppi.chen in
      if nonzero ch_mask
      then nrf_ppi_dequeue_all_tasks (with_ppi (enqueue_event ch_mask s.ppi) s)
      else s

-- The models with the events of nrf_ppi_event, nested to a depth; below it an event does what the given
-- environment says.
unfoldable pub ppi_env : ℕ → Env → Env
ppi_env zero env = env
ppi_env (suc depth) env =
    let inner = ppi_env depth env in
    record env { nrf_ppi_event = λ event s. nrf_ppi_event ⦃env = inner⦄ event s }
