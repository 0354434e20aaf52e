-- ===== src/PpiLaws/Enqueue.antt =====
-- The queue that nrf_ppi_event of src/HW_models/NRF_PPI.c builds.
use ext_nrf52_hw_models.Common.{
  ℕ, ◌+◌, ◌^◌, ◌/◌, ◌%◌, ◌<◌, ◌≡◌, refl, ap, ◌↔◌, ◌≢◌, ◌⊎◌, true, false, ◌||◌, ltb, ◌==◌, ==_iff,
  Bool-cases, inl, inr, ltb→lt, ltb→le, arith, for_range_inv, Option, none, some, List, [], ◌∷◌,
  ◌++◌,
}
use mathlib.Core.Option.{some-injective}
use ext_nrf52_hw_models.Soc.{Ppi}
use ext_nrf52_hw_models.Ppi.{
  is_queued, nrf_ppi_enqueue_task, enqueue_if, enqueue_channel, enqueue_event,
}

-- Each entry is a task, and none stands twice.
abbrev pub IsDistinct : List (Option ℕ) → Type 0
IsDistinct [] = Unit
IsDistinct (e ∷ rest) =
    ((task : ℕ) × (e ≡ some task) × (is_queued task rest ≡ false)) × IsDistinct rest

is_queued-append :
    (task new : ℕ) (queue : List (Option ℕ))
    → is_queued task (queue ++ some new ∷ []) ≡ (is_queued task queue || new == task)
unfolding is_queued
is_queued-append task new [] = ground arith
is_queued-append task new (e ∷ rest) = ground (arith, is_queued-append task new rest)

append-IsDistinct :
    (new : ℕ) (queue : List (Option ℕ))
    → is_queued new queue ≡ false
    → IsDistinct queue
    → IsDistinct (queue ++ some new ∷ [])
unfolding is_queued
append-IsDistinct new [] absent h = ((new, refl, refl), tt)
append-IsDistinct new (e ∷ rest) absent h =
    let here = h.0 in
    let gone : (here.0 == new || is_queued new rest) ≡ false = rw here.1 at absent in
    let rest_absent : is_queued new rest ≡ false = ground (arith, gone) in
    (
      (here.0, here.1, ground (arith, gone, here.2, is_queued-append here.0 new rest)),
      append-IsDistinct new rest rest_absent h.1,
    )

enqueue_task-is_queued :
    (task new : ℕ) (queue : List (Option ℕ))
    → (is_queued task (nrf_ppi_enqueue_task new queue) ≡ true)
      ↔ ((is_queued task queue ≡ true) ⊎ (new ≡ task))
unfolding nrf_ppi_enqueue_task
enqueue_task-is_queued task new queue = elim (Bool-cases (is_queued new queue)) [
  | inl there ↦ rw there (λ q. inl q, λ r. elim r [ inl q ↦ q | inr same ↦ rw same at there ])
  | inr absent ↦ rw (absent, is_queued-append task new queue) ground arith
]

enqueue_task-IsDistinct :
    (new : ℕ) (queue : List (Option ℕ))
    → IsDistinct queue
    → IsDistinct (nrf_ppi_enqueue_task new queue)
unfolding nrf_ppi_enqueue_task
enqueue_task-IsDistinct new queue h = elim (Bool-cases (is_queued new queue)) [
  | inl there ↦ rw there h
  | inr absent ↦ rw absent (append-IsDistinct new queue absent h)
]

-- What the queue holds of the tasks that satisfy P, and that it is distinct.
Holds : (ℕ → Type 0) → List (Option ℕ) → Type 0
Holds P queue = ((task : ℕ) → (is_queued task queue ≡ true) ↔ P task) × IsDistinct queue

enqueue_if-Holds :
    (P : ℕ → Type 0) (f : Option ℕ) (queue : List (Option ℕ))
    → Holds P queue
    → Holds (λ task. P task ⊎ (f ≡ some task)) (enqueue_if f queue)
unfolding Holds enqueue_if
enqueue_if-Holds P none queue h = (
  λ task. (
    λ q. inl ((h.0 task).0 q),
    λ r. elim r [ inl q ↦ (h.0 task).1 q | inr e ↦ absurd (ground arith) ],
  ),
  h.1,
)
enqueue_if-Holds P (some new) queue h = (
  λ task. (
    λ q. elim ((enqueue_task-is_queued task new queue).0 q) [
      | inl old ↦ inl ((h.0 task).0 old)
      | inr same ↦ inr (ap some same)
    ],
    λ r.
        (enqueue_task-is_queued task new queue).1
          (elim r [ inl q ↦ inl ((h.0 task).1 q) | inr e ↦ inr (some-injective new task e) ]),
  ),
  enqueue_task-IsDistinct new queue h.1,
)

Holds-iff :
    (P Q : ℕ → Type 0) (queue : List (Option ℕ))
    → ((task : ℕ) → P task ↔ Q task)
    → Holds P queue
    → Holds Q queue
unfolding Holds
Holds-iff P Q queue iff h =
    (λ task. (λ q. (iff task).0 ((h.0 task).0 q), λ r. (h.0 task).1 ((iff task).1 r)), h.1)

-- The task of one of the first n channels that are in the mask.
abbrev pub Triggered : (n ch_mask : ℕ) → Ppi → ℕ → Type 0
Triggered n ch_mask p task =
    (ch : ℕ) × (ch < n)
    × (ch_mask / 2 ^ ch % 2 ≡ 1)
    × ((p.tep_f ch ≡ some task) ⊎ (p.fork_tep_f ch ≡ some task))

module _ (ch_mask : ℕ) (p : Ppi) where
  -- One more channel, in the mask or not.
  Triggered-in :
      (k task : ℕ)
      → ch_mask / 2 ^ k % 2 ≡ 1
      → ((Triggered k ch_mask p task ⊎ (p.tep_f k ≡ some task)) ⊎ (p.fork_tep_f k ≡ some task))
        ↔ Triggered (k + 1) ch_mask p task
  Triggered-in k task set = (
    λ r. elim r [
      | inl (inl old) ↦ (old.0, omega (arith, old.1), old.2, old.3)
      | inl (inr tep) ↦ (k, omega arith, set, inl tep)
      | inr fork ↦ (k, omega arith, set, inr fork)
    ],
    λ r. elim (Bool-cases (ltb r.0 k)) [
      | inl old ↦ inl (inl (r.0, ltb→lt _ _ old, r.2, r.3))
      | inr new ↦
          let same : r.0 ≡ k = omega (arith, ltb→le _ _ new, r.1) in
          let routed : (p.tep_f k ≡ some task) ⊎ (p.fork_tep_f k ≡ some task) = rw same at r.3 in
          elim routed [ inl tep ↦ inl (inr tep) | inr fork ↦ inr fork ]
    ],
  )

  Triggered-out :
      (k task : ℕ)
      → ch_mask / 2 ^ k % 2 ≢ 1
      → Triggered k ch_mask p task ↔ Triggered (k + 1) ch_mask p task
  Triggered-out k task clear = (
    λ old. (old.0, omega (arith, old.1), old.2, old.3),
    λ r. elim (Bool-cases (ltb r.0 k)) [
      | inl old ↦ (r.0, ltb→lt _ _ old, r.2, r.3)
      | inr new ↦
          let same : r.0 ≡ k = omega (arith, ltb→le _ _ new, r.1) in
          let set : ch_mask / 2 ^ k % 2 ≡ 1 = rw same at r.2 in absurd (clear set)
    ],
  )

  enqueue_channel-Holds :
      (k : ℕ) (queue : List (Option ℕ))
      → Holds (Triggered k ch_mask p) queue
      → Holds (Triggered (k + 1) ch_mask p) (enqueue_channel ch_mask p k queue)
  unfolding enqueue_channel
  enqueue_channel-Holds k queue h = elim (Bool-cases (ch_mask / 2 ^ k % 2 == 1)) [
    | inl set ↦ rw set (
        Holds-iff _ (Triggered (k + 1) ch_mask p) _
          (λ task. Triggered-in k task ((==_iff _ 1).0 set))
          (enqueue_if-Holds _ (p.fork_tep_f k) _ (enqueue_if-Holds _ (p.tep_f k) queue h)))
    | inr clear ↦ rw clear (
        Holds-iff _ (Triggered (k + 1) ch_mask p) queue
          (λ task. Triggered-out k task (λ set. ground arith)) h)
  ]

  -- On an empty queue: after the loop of nrf_ppi_event over the 32 channels the queue holds a task exactly
  -- if it is the task, or the fork's task, of a channel in the mask, and each such task once.
  pub enqueue_event_lem :
      p.queue ≡ []
      → ((task : ℕ)
          → (is_queued task (enqueue_event ch_mask p).queue ≡ true) ↔ Triggered 32 ch_mask p task)
        × IsDistinct (enqueue_event ch_mask p).queue
  unfolding enqueue_event Holds is_queued
  enqueue_event_lem empty =
      for_range_inv (λ k queue. Holds (Triggered k ch_mask p) queue) (enqueue_channel ch_mask p)
        enqueue_channel-Holds 32 0 32 p.queue (omega arith)
        (rw empty (λ task. (λ q. absurd (ground arith), λ r. absurd (omega (arith, r.1))), tt))
