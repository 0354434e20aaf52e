-- ===== src/Examples/Routing.antt =====
-- A system whose channels 0 and 5 listen to event 3, both with the task that enables channel group 0.
use ext_nrf52_hw_models.Common.{
  ℕ, ◌+◌, ◌*◌, ◌<◌, ◌≡◌, refl, sym, ◌↔◌, inl, inr, true, ◌≢◌, ◌==◌, for_range, if◌then◌else◌, some,
  arith,
}
use mathlib.Core.Option.{some-injective}
use ext_nrf52_hw_models.Common.Bits.{bit}
use ext_nrf52_hw_models.Soc.{Soc, Ppi}
use ext_nrf52_hw_models.Examples.Setup.{bench, rest, idle_ppi}
use ext_nrf52_hw_models.Ppi.{
  ppi_events_table, nrf_ppi_task_chg_endis, nrf_ppi_regw_sideeffects_eep, is_queued,
  nrf_ppi_enqueue_task, enqueue_if, enqueue_channel, enqueue_event, set_entry, run_task, call_entry,
  run_entry, dequeue_from, nrf_ppi_dequeue_all_tasks, nrf_ppi_event, ppi_env,
}
use ext_nrf52_hw_models.Egu.{nrf_egu_task_trigger, nrf_egu_eval_interrupt, new_int_line}
use ext_nrf52_hw_models.PpiLaws.Enqueue.{IsDistinct, Triggered, enqueue_event_lem}
use ext_nrf52_hw_models.PpiLaws.Order.{LeavesQueue, run_tasks, event-run_tasks}
use ext_nrf52_hw_models.PpiLaws.Route.{among, regw_sideeffects_eep_lem}

abbrev wired_ppi : Ppi
wired_ppi = record idle_ppi {
  chen = 0x21;
  chg = λ i. 0x100;
  evt_to_ch = λ event. if event == 3 then 0x21 else 0;
  tep_f = λ ch. some 92;
}

abbrev wired : Soc
wired = record rest { ppi = wired_ppi }

-- The task is queued once, and enables channel 8.
event_runs : (nrf_ppi_event ⦃env = bench⦄ 3 wired).ppi.chen ≡ 0x121
unfolding nrf_ppi_event nrf_ppi_dequeue_all_tasks dequeue_from run_entry call_entry run_task
    enqueue_event enqueue_channel enqueue_if nrf_ppi_enqueue_task is_queued set_entry
    nrf_ppi_task_chg_endis for_range
event_runs = refl

the_task : (task : ℕ) → Triggered 32 0x21 wired_ppi task → task ≡ 92
the_task task h = elim h.3 [
  | inl e ↦ sym (some-injective 92 task e)
  | inr e ↦ absurd (ground arith)
]

enables-LeavesQueue : LeavesQueue (run_task ⦃env = bench⦄ 92)
unfolding run_task nrf_ppi_task_chg_endis
enables-LeavesQueue s queue = refl

event-run_tasks_example :
    let ch_mask : ℕ = 0x21 in
    (nrf_ppi_event ⦃env = bench⦄ 3 wired
      ≡ run_tasks ⦃env = bench⦄ (enqueue_event ch_mask wired_ppi).queue wired)
    × (ch_mask ≡ 0 → nrf_ppi_event ⦃env = bench⦄ 3 wired ≡ wired)
event-run_tasks_example =
    event-run_tasks ⦃env = bench⦄ 3 wired refl (λ task h. rw (the_task task h) enables-LeavesQueue)

-- Event 3 triggers EGU0's first task, whose event triggers the task that enables channel group 0.
abbrev chained : Soc
chained = record rest {
  ppi = record wired_ppi {
    evt_to_ch = λ event. if event == 3 then 0x1 else if event == 73 then 0x20 else 0;
    tep_f = λ ch. if ch == 0 then some 104 else some 92;
  };
}

chained_runs : (nrf_ppi_event ⦃env = ppi_env 1 bench⦄ 3 chained).ppi.chen ≡ 0x121
unfolding nrf_ppi_event nrf_ppi_dequeue_all_tasks dequeue_from run_entry call_entry run_task
    enqueue_event enqueue_channel enqueue_if nrf_ppi_enqueue_task is_queued set_entry
    nrf_ppi_task_chg_endis for_range ppi_env nrf_egu_task_trigger nrf_egu_eval_interrupt
    new_int_line
chained_runs = refl

enqueue_event_lem_example :
    ((task : ℕ)
      → (is_queued task (enqueue_event 0x21 wired_ppi).queue ≡ true)
        ↔ Triggered 32 0x21 wired_ppi task)
    × IsDistinct (enqueue_event 0x21 wired_ppi).queue
enqueue_event_lem_example = enqueue_event_lem 0x21 wired_ppi refl

-- EEP at the register of event 39.
abbrev written_ppi : Ppi
written_ppi = record wired_ppi { eep = λ ch. 0x50000000 + 4 * 39 }

apart_on_bench : (a b : ℕ) → 0x50000000 + 4 * a ≡ 0x50000000 + 4 * b → a ≡ b
apart_on_bench a b h = omega arith

regw_sideeffects_eep_lem_example :
    let mask = (nrf_ppi_regw_sideeffects_eep ⦃env = bench⦄ 4 written_ppi).evt_to_ch 39 in
    ((bit mask 4 ≡ true) ↔ (
      (0 < 0x50000000 + 4 * 39)
      × (0x50000000 + 4 * 39 ≡ 0x50000000 + 4 * 39)
      × (among 39 ppi_events_table ≡ true)))
    × ((c : ℕ) → c ≢ 4 → bit mask c ≡ bit 0 c)
regw_sideeffects_eep_lem_example =
    regw_sideeffects_eep_lem ⦃env = bench⦄ apart_on_bench written_ppi 4 39 (omega arith)
      (omega arith) (omega arith)
