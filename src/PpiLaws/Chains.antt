-- ===== src/PpiLaws/Chains.antt =====
-- The tasks of ppi_tasks_table in src/HW_models/NRF_PPI.c that the EGU and the channel groups have, and
-- events that run them.
use ext_nrf52_hw_models.Common.{
  ℕ, zero, suc, ◌+◌, ◌-◌, ◌/◌, ◌%◌, ◌<◌, ◌≤◌, ◌≡◌, refl, sym, ◌∙◌, ap, ◌⊎◌, inl, inr, not, ◌&&◌,
  ltb, true, false, if_intro, arith, [], Bool, Bool-cases, update, ltb→lt, ltb→le,
}
use ext_nrf52_hw_models.Soc.{Soc, Ppi}
use ext_nrf52_hw_models.Soc.Env.{Env}
use ext_nrf52_hw_models.TopLaws.Scheduled.{IsApart}
use ext_nrf52_hw_models.IrqLaws.Apart.{raise-apart, lower-apart}
use ext_nrf52_hw_models.Egu.{
  with_egu, new_int_line, nrf_egu_eval_interrupt, no_such_event, nrf_egu_task_trigger,
  egu_event_base,
}
use ext_nrf52_hw_models.Ppi.{run_task, nrf_ppi_task_chg_endis, nrf_ppi_event}
use ext_nrf52_hw_models.PpiLaws.Nesting.{IsWired, AreAmong, KeepsQueue, OnlyByEvents}

-- The tasks CHG[n].EN and CHG[n].DIS, and the 96 of the EGU.
abbrev pub IsGroupOrEgu : ℕ → Type 0
IsGroupOrEgu task = (92 ≤ task) × (task < 200)

ppi-IsApart : IsApart (λ (s : Soc). s.ppi)
ppi-IsApart = record { apart = λ s c m n k h. refl }

-- The rows of the channel groups.
run_chg :
    ⦃env : Env⦄ (row : ℕ) (s : Soc)
    → row < 12
    → run_task (92 + row) s ≡ nrf_ppi_task_chg_endis (row % 6) (ltb row 6) s
unfolding run_task
run_chg zero s h = refl
run_chg (suc zero) s h = refl
run_chg (suc (suc zero)) s h = refl
run_chg (suc (suc (suc zero))) s h = refl
run_chg (suc (suc (suc (suc zero)))) s h = refl
run_chg (suc (suc (suc (suc (suc zero))))) s h = refl
run_chg (suc (suc (suc (suc (suc (suc zero)))))) s h = refl
run_chg (suc (suc (suc (suc (suc (suc (suc zero))))))) s h = refl
run_chg (suc (suc (suc (suc (suc (suc (suc (suc zero)))))))) s h = refl
run_chg (suc (suc (suc (suc (suc (suc (suc (suc (suc zero))))))))) s h = refl
run_chg (suc (suc (suc (suc (suc (suc (suc (suc (suc (suc zero)))))))))) s h = refl
run_chg (suc (suc (suc (suc (suc (suc (suc (suc (suc (suc (suc zero))))))))))) s h = refl
run_chg (suc (suc (suc (suc (suc (suc (suc (suc (suc (suc (suc (suc row)))))))))))) s h =
    absurd (omega arith)

run_egu :
    ⦃env : Env⦄ (row : ℕ) (s : Soc)
    → row < 96
    → run_task (104 + row) s ≡ nrf_egu_task_trigger (row / 16) (row % 16) s
unfolding run_task
run_egu row s h =
    let above : ltb (104 + row) 104 ≡ false = ground arith in
    let below : ltb (104 + row) 200 ≡ true = ground arith in
    let own : 104 + row - 104 ≡ row = omega arith in rw (above, below, own) refl

chg-KeepsQueue :
    (A : ℕ → Type 0) (group : ℕ) (enable : Bool)
    → KeepsQueue A (nrf_ppi_task_chg_endis group enable)
unfolding nrf_ppi_task_chg_endis
chg-KeepsQueue A group true s wired all = (record { tep = wired.tep; fork = wired.fork }, inr refl)
chg-KeepsQueue A group false s wired all = (record { tep = wired.tep; fork = wired.fork }, inr refl)

module _ ⦃env : Env⦄ (A : ℕ → Type 0)
    (events : (event : ℕ) → KeepsQueue A (λ s. env.nrf_ppi_event event s)) where
  egu_line-ppi : (inst : ℕ) (s : Soc) → (nrf_egu_eval_interrupt inst s).ppi ≡ s.ppi
  unfolding nrf_egu_eval_interrupt
  egu_line-ppi inst s =
      let e = s.egu inst in
      if_intro (λ (t : Soc). t.ppi ≡ s.ppi) (new_int_line e && not e.int_line)
        (raise-apart (λ (t : Soc). t.ppi) ppi-IsApart _ _)
        (if_intro (λ (t : Soc). t.ppi ≡ s.ppi) (not (new_int_line e) && e.int_line)
          (lower-apart (λ (t : Soc). t.ppi) ppi-IsApart _ _) refl)

  -- Where the PPI is as before, a step that keeps the queue does so from there.
  from_same :
      (f : Soc → Soc) (s t : Soc)
      → KeepsQueue A f
      → t.ppi ≡ s.ppi
      → IsWired A s.ppi
      → AreAmong A s.ppi.queue
      → IsWired A (f t).ppi × (((f t).ppi.queue ≡ []) ⊎ ((f t).ppi.queue ≡ s.ppi.queue))
  from_same f s t keep same wired all =
      let ran = keep t (rw same wired) (rw same all) in
      (
        ran.0,
        elim ran.1 [ inl gone ↦ inl gone | inr kept ↦ inr (kept ∙ ap (λ (p : Ppi). p.queue) same) ],
      )

  egu-KeepsQueue : (inst nbr : ℕ) → KeepsQueue A (nrf_egu_task_trigger inst nbr)
  unfolding nrf_egu_task_trigger
  egu-KeepsQueue inst nbr s wired all =
      let e = s.egu inst in
      let set = with_egu inst (record e { events_triggered = update e.events_triggered nbr 1 }) s in
      if_intro (λ (t : Soc). IsWired A t.ppi × ((t.ppi.queue ≡ []) ⊎ (t.ppi.queue ≡ s.ppi.queue)))
        (no_such_event inst nbr) (wired, inr refl)
        (from_same (λ t. env.nrf_ppi_event (egu_event_base inst + nbr) t) s
          (nrf_egu_eval_interrupt inst set) (events (egu_event_base inst + nbr))
          (egu_line-ppi inst set) wired all)

-- Each of them.
pub task-OnlyByEvents : (A : ℕ → Type 0) (task : ℕ) → IsGroupOrEgu task → OnlyByEvents A task
task-OnlyByEvents A task range env events s wired all = elim (Bool-cases (ltb task 104)) [
  | inl chg ↦
      let below = ltb→lt task 104 chg in
      let row : 92 + (task - 92) ≡ task = omega (arith, range.0) in
      let ran : run_task ⦃env = env⦄ task s
          ≡ nrf_ppi_task_chg_endis ((task - 92) % 6) (ltb (task - 92) 6) s =
        ap (λ t. run_task ⦃env = env⦄ t s) (sym row)
        ∙ run_chg ⦃env = env⦄ (task - 92) s (omega arith) in
      rw ran (chg-KeepsQueue A ((task - 92) % 6) (ltb (task - 92) 6) s wired all)
  | inr egu ↦
      let above = ltb→le task 104 egu in
      let row : 104 + (task - 104) ≡ task = omega arith in
      let ran : run_task ⦃env = env⦄ task s
          ≡ nrf_egu_task_trigger ⦃env = env⦄ ((task - 104) / 16) ((task - 104) % 16) s =
        ap (λ t. run_task ⦃env = env⦄ t s) (sym row)
        ∙ run_egu ⦃env = env⦄ (task - 104) s (omega (arith, range.1)) in
      rw ran
        (egu-KeepsQueue ⦃env = env⦄ A events ((task - 104) / 16) ((task - 104) % 16) s wired all)
]
