-- ===== src/TopLaws/Handlers.antt =====
-- The calls of src/HW_models/irq_ctrl.c and the timer handlers that signal no event of the PPI last leave
-- the scheduler in agreement with the models' timers.
use ext_nrf52_hw_models.Common.{
  ℕ, ◌^◌, ◌≡◌, refl, not, ◌||◌, leb, ltb, ◌==◌, if_intro, nonzero, bit_and, bit_or,
}
use ext_nrf52_hw_models.Soc.{Soc, IrqCtrl}
use ext_nrf52_hw_models.Soc.Env.{Env}
use ext_nrf52_hw_models.TopLaws.Scheduled.{IsScheduled, find_next-IsScheduled}
use ext_nrf52_hw_models.Irq.{
  pend, phony_hard_irq, hw_irq_ctrl_irq_raise_prefix, hw_irq_ctrl_set_irq,
  hw_irq_ctrl_raise_level_irq_line, hw_irq_ctrl_lower_level_irq_line, hw_irq_ctrl_timer_triggered,
}
use ext_nrf52_hw_models.Ticker.{
  bst_ticker_find_next_time, fake_timer_triggered, bst_ticker_triggered,
}
use ext_nrf52_hw_models.Nvmc.{is_idle, nrfhw_nvmc_timer_triggered}
use ext_nrf52_hw_models.Timer.{update_master_timer, nrf_hw_model_timer_timer_triggered}
use ext_nrf52_hw_models.Rtc.{
  update_master_timer as rtc_update_master_timer, nrf_rtc_timer_triggered,
}

prefix-timer : (irq : ℕ) (c : IrqCtrl) → (hw_irq_ctrl_irq_raise_prefix irq c).timer ≡ c.timer
unfolding hw_irq_ctrl_irq_raise_prefix pend
prefix-timer irq c =
    if_intro (λ (x : IrqCtrl). x.timer ≡ c.timer) (ltb irq 47) refl
      (if_intro (λ (x : IrqCtrl). x.timer ≡ c.timer) (irq == phony_hard_irq) refl refl)

pub set_irq-IsScheduled :
    (irq : ℕ) (s : Soc) → IsScheduled s → IsScheduled (hw_irq_ctrl_set_irq irq s)
unfolding hw_irq_ctrl_set_irq
set_irq-IsScheduled irq s h =
    let c = hw_irq_ctrl_irq_raise_prefix irq s.irq in
    if_intro IsScheduled (not c.irqs_locked || c.lock_ignore)
      (find_next-IsScheduled (record s { irq = record c { timer = s.now } }))
      (rw (prefix-timer irq s.irq) h)

pub raise-IsScheduled :
    (irq : ℕ) (s : Soc) → IsScheduled s → IsScheduled (hw_irq_ctrl_raise_level_irq_line irq s)
unfolding hw_irq_ctrl_raise_level_irq_line
raise-IsScheduled irq s h = if_intro IsScheduled (leb 47 irq) h (
    if_intro IsScheduled (nonzero (bit_and s.irq.irq_lines (2 ^ irq))) h (
      set_irq-IsScheduled irq
        (record s { irq = record (s.irq) { irq_lines = bit_or s.irq.irq_lines (2 ^ irq) } }) h))

pub lower-IsScheduled :
    (irq : ℕ) (s : Soc) → IsScheduled s → IsScheduled (hw_irq_ctrl_lower_level_irq_line irq s)
unfolding hw_irq_ctrl_lower_level_irq_line
lower-IsScheduled irq s h = if_intro IsScheduled (leb 47 irq) h h

module _ ⦃env : Env⦄ where
  pub ticker-IsScheduled : (s : Soc) → IsScheduled (bst_ticker_triggered s.main_timer s)
  unfolding bst_ticker_triggered bst_ticker_find_next_time
  ticker-IsScheduled s = find_next-IsScheduled _

  pub fake-IsScheduled : (s : Soc) → IsScheduled (fake_timer_triggered s)
  unfolding fake_timer_triggered
  fake-IsScheduled s = set_irq-IsScheduled _ _ (find_next-IsScheduled _)

  pub irq-IsScheduled : (s : Soc) → IsScheduled (hw_irq_ctrl_timer_triggered s)
  unfolding hw_irq_ctrl_timer_triggered
  irq-IsScheduled s = find_next-IsScheduled _

  pub timer-IsScheduled : (s : Soc) → IsScheduled (nrf_hw_model_timer_timer_triggered s)
  unfolding nrf_hw_model_timer_timer_triggered update_master_timer
  timer-IsScheduled s = find_next-IsScheduled _

  pub rtc-IsScheduled : (s : Soc) → IsScheduled (nrf_rtc_timer_triggered s)
  unfolding nrf_rtc_timer_triggered rtc_update_master_timer
  rtc-IsScheduled s = find_next-IsScheduled _

  pub nvmc-IsScheduled :
      (uicr_bytes : ℕ) (s : Soc)
      → IsScheduled s
      → IsScheduled (nrfhw_nvmc_timer_triggered uicr_bytes s)
  unfolding nrfhw_nvmc_timer_triggered
  nvmc-IsScheduled uicr_bytes s h =
      if_intro IsScheduled (is_idle s.nvmc.flash_op) h (find_next-IsScheduled _)
