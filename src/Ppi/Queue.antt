-- ===== src/Ppi/Queue.antt =====
-- src/HW_models/NRF_PPI.c: the queue of the tasks that an event triggers.
use ext_nrf52_hw_models.Common.{
  ℕ, zero, suc, ◌/◌, ◌%◌, ◌^◌, Bool, false, Option, none, some, List, [], ◌∷◌, ◌++◌, ◌||◌, ◌==◌,
  if◌then◌else◌, for_range,
}
use ext_nrf52_hw_models.Soc.{Ppi}

-- tasks_queue.q[i] == task
abbrev pub is_task : ℕ → Option ℕ → Bool
is_task task none = false
is_task task (some t) = t == task

unfoldable pub is_queued : ℕ → List (Option ℕ) → Bool
is_queued task [] = false
is_queued task (e ∷ rest) = is_task task e || is_queued task rest

-- The table grows as it has to.
unfoldable pub nrf_ppi_enqueue_task : ℕ → List (Option ℕ) → List (Option ℕ)
nrf_ppi_enqueue_task task queue = if is_queued task queue then queue else queue ++ some task ∷ []

-- if (f != NULL) nrf_ppi_enqueue_task(f)
unfoldable pub enqueue_if : Option ℕ → List (Option ℕ) → List (Option ℕ)
enqueue_if none queue = queue
enqueue_if (some task) queue = nrf_ppi_enqueue_task task queue

-- The body of the loop of nrf_ppi_event.
unfoldable pub enqueue_channel : (ch_mask : ℕ) → Ppi → ℕ → List (Option ℕ) → List (Option ℕ)
enqueue_channel ch_mask p ch_nbr queue =
    if ch_mask / 2 ^ ch_nbr % 2 == 1
    then enqueue_if (p.fork_tep_f ch_nbr) (enqueue_if (p.tep_f ch_nbr) queue)
    else queue

-- The loop of nrf_ppi_event, which begins at the first bit of the mask and ends after its last.
unfoldable pub enqueue_event : (ch_mask : ℕ) → Ppi → Ppi
enqueue_event ch_mask p = record p { queue = for_range 32 0 (enqueue_channel ch_mask p) p.queue }

-- tasks_queue.q[i] = NULL
unfoldable pub set_entry : List (Option ℕ) → ℕ → List (Option ℕ)
set_entry [] i = []
set_entry (e ∷ rest) zero = none ∷ rest
set_entry (e ∷ rest) (suc i) = e ∷ set_entry rest i
