-- ===== src/PpiLaws/Nesting.antt =====
-- nrf_ppi_event of src/HW_models/NRF_PPI.c, whose tasks may raise events in turn, to a depth: the loop over
-- the queue ends with the queue empty, on every level.
use ext_nrf52_hw_models.Common.{
  ℕ, zero, suc, ◌+◌, ◌<◌, ◌/◌, ◌%◌, ◌^◌, ◌==◌, ◌≡◌, refl, ◌∙◌, ap, ◌⊎◌, inl, inr, ltb, ltb→lt,
  Bool-cases, if_intro, nonzero, bit_and, arith, Option, none, some, List, [], ◌∷◌, ◌++◌, length,
  get_or, for_range_inv,
}
use ext_nrf52_hw_models.Soc.{Soc, Ppi}
use ext_nrf52_hw_models.Soc.Env.{Env}
use ext_nrf52_hw_models.Ppi.{
  with_ppi, set_entry, is_queued, nrf_ppi_enqueue_task, enqueue_if, enqueue_channel, enqueue_event,
  run_task, call_entry, run_entry, dequeue_from, nrf_ppi_dequeue_all_tasks, nrf_ppi_event, ppi_env,
}
use ext_nrf52_hw_models.PpiLaws.Entries.{Option-cases, length-set_entry}

module _ (A : ℕ → Type 0) where
  -- The task of an entry, if it has one, is among those of A.
  pub IsAmong : Option ℕ → Type 0
  IsAmong none = Unit
  IsAmong (some task) = A task

  pub AreAmong : List (Option ℕ) → Type 0
  AreAmong [] = Unit
  AreAmong (e ∷ rest) = IsAmong e × AreAmong rest

  pub none-AreAmong : AreAmong []
  unfolding AreAmong
  none-AreAmong = tt

  -- And those of the channels are.
  pub record IsWired (p : Ppi) : Type 0 where
    pub tep : (ch task : ℕ) → p.tep_f ch ≡ some task → A task
    pub fork : (ch task : ℕ) → p.fork_tep_f ch ≡ some task → A task

  snoc-AreAmong :
      (queue : List (Option ℕ)) (task : ℕ)
      → A task
      → AreAmong queue
      → AreAmong (queue ++ some task ∷ [])
  unfolding AreAmong IsAmong
  snoc-AreAmong [] task a all = (a, tt)
  snoc-AreAmong (e ∷ rest) task a all = (all.0, snoc-AreAmong rest task a all.1)

  set_entry-AreAmong :
      (queue : List (Option ℕ)) (i : ℕ) → AreAmong queue → AreAmong (set_entry queue i)
  unfolding AreAmong IsAmong set_entry
  set_entry-AreAmong [] i all = tt
  set_entry-AreAmong (e ∷ rest) zero all = (tt, all.1)
  set_entry-AreAmong (e ∷ rest) (suc i) all = (all.0, set_entry-AreAmong rest i all.1)

  same-IsAmong : (e : Option ℕ) (task : ℕ) → e ≡ some task → IsAmong e → IsAmong (some task)
  same-IsAmong e task h a = rw (← h) a

  get-IsAmong :
      (queue : List (Option ℕ)) (i task : ℕ)
      → get_or queue i none ≡ some task
      → AreAmong queue
      → A task
  unfolding AreAmong IsAmong
  get-IsAmong [] i task h all = absurd (ground arith)
  get-IsAmong (e ∷ rest) zero task h all = same-IsAmong e task h all.0
  get-IsAmong (e ∷ rest) (suc i) task h all = get-IsAmong rest i task h all.1

  enqueue_if-AreAmong :
      (f : Option ℕ) (queue : List (Option ℕ))
      → ((task : ℕ) → f ≡ some task → A task)
      → AreAmong queue
      → AreAmong (enqueue_if f queue)
  unfolding enqueue_if nrf_ppi_enqueue_task
  enqueue_if-AreAmong none queue a all = all
  enqueue_if-AreAmong (some task) queue a all =
      if_intro AreAmong (is_queued task queue) all (snoc-AreAmong queue task (a task refl) all)

  enqueue_event-AreAmong :
      (ch_mask : ℕ) (p : Ppi)
      → IsWired p
      → AreAmong p.queue
      → AreAmong (enqueue_event ch_mask p).queue
  unfolding enqueue_event enqueue_channel
  enqueue_event-AreAmong ch_mask p wired all =
      for_range_inv (λ k queue. AreAmong queue) (enqueue_channel ch_mask p)
        (λ k queue h.
          if_intro AreAmong (ch_mask / 2 ^ k % 2 == 1)
            (enqueue_if-AreAmong (p.fork_tep_f k) (enqueue_if (p.tep_f k) queue) (wired.fork k)
              (enqueue_if-AreAmong (p.tep_f k) queue (wired.tep k) h))
            h)
        32 0 32 p.queue (omega arith) all

  -- A step of the models, where only tasks of A are queued and wired, wires no others, and leaves the queue
  -- as it is, or empty.
  abbrev pub KeepsQueue : (Soc → Soc) → Type 0
  KeepsQueue f =
      (s : Soc)
      → IsWired s.ppi
      → AreAmong s.ppi.queue
      → IsWired (f s).ppi × (((f s).ppi.queue ≡ []) ⊎ ((f s).ppi.queue ≡ s.ppi.queue))

  -- A task touches the queue through the events that it raises only.
  abbrev pub OnlyByEvents : ℕ → Type 0
  OnlyByEvents task =
      (env : Env)
      → ((event : ℕ) → KeepsQueue (λ s. env.nrf_ppi_event event s))
      → KeepsQueue (λ s. run_task ⦃env = env⦄ task s)

  module _ ⦃env : Env⦄ (keep : (task : ℕ) → A task → KeepsQueue (λ s. run_task task s)) where
    run_entry-keeps :
        (i : ℕ) (s : Soc)
        → IsWired s.ppi
        → AreAmong s.ppi.queue
        → let t = run_entry i s in
          IsWired t.ppi
          × ((t.ppi.queue ≡ [])
              ⊎ ((length t.ppi.queue ≡ length s.ppi.queue) × AreAmong t.ppi.queue))
    unfolding run_entry call_entry
    run_entry-keeps i s wired all = elim (Option-cases (get_or s.ppi.queue i none)) [
      | inl null ↦ rw null (wired, inr (refl, all))
      | inr (task, entry) ↦
          let queue = set_entry s.ppi.queue i in
          let cleared = with_ppi (record (s.ppi) { queue = queue }) s in
          let rest = set_entry-AreAmong s.ppi.queue i all in
          let ran =
            keep task (get-IsAmong s.ppi.queue i task entry all) cleared
              (record { tep = wired.tep; fork = wired.fork }) rest in
          rw entry (
            ran.0,
            elim ran.1 [
              | inl gone ↦ inl gone
              | inr kept ↦ inr (ap length kept ∙ length-set_entry s.ppi.queue i, rw kept rest)
            ],
          )
    ]

    dequeue_from-empty :
        (fuel i : ℕ) (s : Soc)
        → length s.ppi.queue < i + fuel
        → 0 < fuel
        → IsWired s.ppi
        → AreAmong s.ppi.queue
        → IsWired (dequeue_from fuel i s).ppi × ((dequeue_from fuel i s).ppi.queue ≡ [])
    unfolding dequeue_from AreAmong
    dequeue_from-empty zero i s enough some_fuel wired all = absurd (omega arith)
    dequeue_from-empty (suc fuel) i s enough some_fuel wired all =
        elim (Bool-cases (ltb i (length s.ppi.queue))) [
          | inl more ↦
              let inside = ltb→lt _ _ more in
              let ran = run_entry-keeps i s wired all in
              rw more (elim ran.1 [
                | inl gone ↦
                    let none_left : length (run_entry i s).ppi.queue ≡ 0 = ap length gone in
                    dequeue_from-empty fuel (suc i) (run_entry i s) (omega arith) (omega arith)
                      ran.0 (rw gone tt)
                | inr (same, left) ↦
                    dequeue_from-empty fuel (suc i) (run_entry i s) (omega arith) (omega arith)
                      ran.0 left
              ])
          | inr over ↦ rw over (record { tep = wired.tep; fork = wired.fork }, refl)
        ]

    event-KeepsQueue : (event : ℕ) → KeepsQueue (λ s. nrf_ppi_event event s)
    unfolding nrf_ppi_event nrf_ppi_dequeue_all_tasks
    event-KeepsQueue event s wired all =
        let ch_mask = bit_and (s.ppi.evt_to_ch event) s.ppi.chen in
        let queued = enqueue_event ch_mask s.ppi in
        let same : IsWired queued =
          unfold enqueue_event in record { tep = wired.tep; fork = wired.fork } in
        let drained =
          dequeue_from-empty (suc (length queued.queue)) 0 (with_ppi queued s) (omega arith)
            (omega arith) same (enqueue_event-AreAmong ch_mask s.ppi wired all) in
        if_intro (λ (t : Soc). IsWired t.ppi × ((t.ppi.queue ≡ []) ⊎ (t.ppi.queue ≡ s.ppi.queue)))
          (nonzero ch_mask) (drained.0, inl drained.1) (wired, inr refl)

  -- If the tasks of A touch the queue through the events that they raise only, and so does the environment
  -- at the bottom, an event leaves the queue as it is or empty on every level of the nesting.
  ppi_env-KeepsQueue :
      ((task : ℕ) → A task → OnlyByEvents task)
      → (base : Env) → ((event : ℕ) → KeepsQueue (λ s. base.nrf_ppi_event event s))
      → (depth event : ℕ) → KeepsQueue (λ s. (ppi_env depth base).nrf_ppi_event event s)
  unfolding ppi_env
  ppi_env-KeepsQueue only base bottom zero event = bottom event
  ppi_env-KeepsQueue only base bottom (suc depth) event =
      event-KeepsQueue ⦃env = ppi_env depth base⦄
        (λ task a. only task a (ppi_env depth base) (ppi_env-KeepsQueue only base bottom depth))
        event

  -- If the tasks that the channels are wired to are among some tasks which, in any environment whose events
  -- leave the queue as it is or empty, do so themselves; and if the events below the deepest level do: then
  -- with events nested to any depth, nrf_ppi_event on an empty queue ends, on the fuel given, with the queue
  -- empty, and on a queue of such tasks, as a task calls it, with the queue empty or as it was.
  pub nested_event_drains :
      ((task : ℕ) → A task → OnlyByEvents task)
      → (base : Env) → ((event : ℕ) → KeepsQueue (λ s. base.nrf_ppi_event event s))
      → (depth event : ℕ) (s : Soc) → IsWired s.ppi
      → AreAmong s.ppi.queue
      → let queue = (nrf_ppi_event ⦃env = ppi_env depth base⦄ event s).ppi.queue in
        (s.ppi.queue ≡ [] → queue ≡ []) × ((queue ≡ []) ⊎ (queue ≡ s.ppi.queue))
  nested_event_drains only base bottom depth event s wired all =
      let ran =
        event-KeepsQueue ⦃env = ppi_env depth base⦄
          (λ task a. only task a (ppi_env depth base) (ppi_env-KeepsQueue only base bottom depth))
          event s wired all in
      (λ empty. elim ran.1 [ inl gone ↦ gone | inr kept ↦ kept ∙ empty ], ran.1)
