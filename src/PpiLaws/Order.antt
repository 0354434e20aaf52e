-- ===== src/PpiLaws/Order.antt =====
-- nrf_ppi_event of src/HW_models/NRF_PPI.c as a sequence of tasks.
use ext_nrf52_hw_models.Common.{
  ℕ, zero, suc, ◌+◌, ◌/◌, ◌%◌, ◌^◌, ◌==◌, ◌<◌, ◌≡◌, refl, sym, ◌∙◌, ap, false, ltb, Bool-cases, inl,
  inr, ltb→lt, ltb→le, arith, nonzero, bit_and, Option, none, some, List, [], ◌∷◌, length, get_or,
  for_range_inv,
}
use native.Mathlib.Nat.{zero-div}
use ext_nrf52_hw_models.Soc.{Soc, Ppi}
use ext_nrf52_hw_models.Soc.Env.{Env}
use ext_nrf52_hw_models.Ppi.{
  with_ppi, set_entry, enqueue_channel, enqueue_event, run_task, call_entry, run_entry,
  dequeue_from, nrf_ppi_dequeue_all_tasks, nrf_ppi_event,
}
use ext_nrf52_hw_models.PpiLaws.Enqueue.{Triggered, enqueue_event_lem}
use ext_nrf52_hw_models.PpiLaws.Entries.{
  Option-cases, length-set_entry, get-set_entry, get-is_queued, drop, drop-get, drop-set_entry,
  drop_all,
}

abbrev pub with_queue : List (Option ℕ) → Soc → Soc
with_queue queue s = with_ppi (record (s.ppi) { queue = queue }) s

-- A task that neither reads the queue nor changes it.
abbrev pub LeavesQueue : (Soc → Soc) → Type 0
LeavesQueue f =
    (s : Soc) (queue : List (Option ℕ)) → f (with_queue queue s) ≡ with_queue queue (f s)

module _ ⦃env : Env⦄ where
  -- The tasks of a queue, one after the other.
  unfoldable pub run_tasks : List (Option ℕ) → Soc → Soc
  run_tasks [] s = s
  run_tasks (none ∷ rest) s = run_tasks rest s
  run_tasks (some task ∷ rest) s = run_tasks rest (run_task task s)

  AllLeave : List (Option ℕ) → Type 0
  AllLeave queue = (j task : ℕ) → get_or queue j none ≡ some task → LeavesQueue (run_task task)

  dequeue_from-run_tasks :
      (fuel i : ℕ) (queue : List (Option ℕ)) (s : Soc)
      → length queue < i + fuel
      → 0 < fuel
      → AllLeave queue
      → dequeue_from fuel i (with_queue queue s) ≡ with_queue [] (run_tasks (drop i queue) s)
  unfolding dequeue_from run_tasks run_entry call_entry AllLeave
  dequeue_from-run_tasks zero i queue s enough some_fuel all = absurd (omega arith)
  dequeue_from-run_tasks (suc fuel) i queue s enough some_fuel all =
      elim (Bool-cases (ltb i (length queue))) [
        | inl more ↦
            let inside = ltb→lt _ _ more in
            elim (Option-cases (get_or queue i none)) [
              | inl null ↦
                  rw (more, drop-get i queue inside, null)
                    (dequeue_from-run_tasks fuel (suc i) queue s (omega arith) (omega arith) all)
              | inr (task, entry) ↦
                  let cleared = set_entry queue i in
                  let same = length-set_entry queue i in
                  let rest =
                    dequeue_from-run_tasks fuel (suc i) cleared (run_task task s) (omega arith)
                      (omega arith) (λ j t h. all j t (get-set_entry queue i j t h)) in
                  rw (more, drop-get i queue inside, entry, all i task entry s cleared)
                    (rest
                      ∙ ap (λ (q : List (Option ℕ)). with_queue [] (run_tasks q (run_task task s)))
                          (drop-set_entry i queue))
            ]
        | inr over ↦ rw (over, drop_all i queue (ltb→le _ _ over)) refl
      ]

  -- A run of tasks that leave the queue leaves it.
  run_tasks-queue :
      (tasks : List (Option ℕ)) (s : Soc) (queue : List (Option ℕ))
      → AllLeave tasks
      → run_tasks tasks (with_queue queue s) ≡ with_queue queue (run_tasks tasks s)
  unfolding run_tasks AllLeave
  run_tasks-queue [] s queue all = refl
  run_tasks-queue (none ∷ rest) s queue all =
      run_tasks-queue rest s queue (λ j t h. all (suc j) t h)
  run_tasks-queue (some task ∷ rest) s queue all =
      ap (run_tasks rest) (all 0 task refl s queue)
      ∙ run_tasks-queue rest (run_task task s) queue (λ j t h. all (suc j) t h)

  -- An empty mask queues nothing.
  no_channel : (p : Ppi) → p.queue ≡ [] → (enqueue_event 0 p).queue ≡ []
  unfolding enqueue_event enqueue_channel
  no_channel p empty =
      for_range_inv (λ k (queue : List (Option ℕ)). queue ≡ []) (enqueue_channel 0 p)
        (λ k queue h.
          let clear : (0 / 2 ^ k % 2 == 1) ≡ false = ground (arith, zero-div (2 ^ k)) in rw clear h)
        32 0 32 p.queue (omega arith) empty

  -- Where the queue is empty and the tasks that the event triggers neither read nor change it: nrf_ppi_event
  -- runs the tasks of the queue that it builds once each, in their order, and does nothing else. On an event
  -- that no enabled channel listens to it does nothing.
  pub event-run_tasks :
      (event : ℕ) (s : Soc)
      → s.ppi.queue ≡ []
      → ((task : ℕ)
          → Triggered 32 (bit_and (s.ppi.evt_to_ch event) s.ppi.chen) s.ppi task
          → LeavesQueue (run_task task))
      → let ch_mask = bit_and (s.ppi.evt_to_ch event) s.ppi.chen in
        (nrf_ppi_event event s ≡ run_tasks (enqueue_event ch_mask s.ppi).queue s)
        × (ch_mask ≡ 0 → nrf_ppi_event event s ≡ s)
  unfolding nrf_ppi_event nrf_ppi_dequeue_all_tasks AllLeave run_tasks enqueue_event
  event-run_tasks event s empty leave =
      let ch_mask = bit_and (s.ppi.evt_to_ch event) s.ppi.chen in
      let queue = (enqueue_event ch_mask s.ppi).queue in
      let all : AllLeave queue = λ j task h.
        leave task
          (((enqueue_event_lem ch_mask s.ppi empty).0 task).0 (get-is_queued queue j task h)) in
      let back : with_queue [] s ≡ s = ap (λ q. with_queue q s) (sym empty) in
      (
        elim (Bool-cases (nonzero ch_mask)) [
          | inl some_channel ↦ rw some_channel (
              dequeue_from-run_tasks (suc (length queue)) 0 queue s (omega arith) (omega arith) all
              ∙ sym (run_tasks-queue queue s [] all)
              ∙ ap (run_tasks queue) back)
          | inr idle ↦
              let cleared : ch_mask ≡ 0 = ground arith in
              let nothing : queue ≡ [] =
                ap (λ m. (enqueue_event m s.ppi).queue) cleared ∙ no_channel s.ppi empty in
              rw (idle, nothing) refl
        ],
        λ cleared. rw cleared refl,
      )
