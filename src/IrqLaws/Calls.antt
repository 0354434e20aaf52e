-- ===== src/IrqLaws/Calls.antt =====
-- The state-changing calls of src/HW_models/irq_ctrl.c as one type, and what each of them keeps.
use ext_nrf52_hw_models.Common.{
  ℕ, ◌^◌, ◌<◌, false, not, ◌&&◌, ◌||◌, ◌==◌, nonzero, bit_and, arith, Bool-cases, inl, inr,
  if_intro,
}
use ext_nrf52_hw_models.Soc.{Soc}
use ext_nrf52_hw_models.Soc.Env.{Env}
use ext_nrf52_hw_models.TopLaws.Scheduled.{find_next-irq}
use ext_nrf52_hw_models.Irq.{
  hw_irq_ctrl_set_cur_prio, hw_irq_ctrl_prio_set, hw_irq_ctrl_clear_all_enabled_irqs,
  hw_irq_ctrl_clear_all_irqs, hw_irq_ctrl_disable_irq, hw_irq_ctrl_clear_irq,
  hw_irq_ctrl_reeval_level_irq, hw_irq_ctrl_irq_raise_prefix, hw_irq_ctrl_set_irq,
  hw_irq_ctrl_raise_level_irq_line, hw_irq_ctrl_lower_level_irq_line, irq_raising_from_hw_now,
  hw_irq_ctrl_raise_im, hw_irq_ctrl_raise_im_from_sw, with_irq, hw_irq_ctrl_enable_irq,
  hw_irq_ctrl_change_lock, hw_irq_ctrl_timer_triggered,
}
use ext_nrf52_hw_models.IrqLaws.Pending.{
  IsPending, IsPending-frame, Pended, clear_all-IsPending, clear_all_enabled-IsPending,
  clear_irq-IsPending, disable_irq-IsPending, enabled-IsPending, lower_line-IsPending,
  prefix-IsPending, prefix_enabled-IsPending, prio_set-IsPending, raise_line-IsPending,
  reeval-IsPending, set_irq-IsPending,
}

-- The calls of the interrupt controller that change its state.
pub data IrqCall : Type 0 where
  set_cur_prio : ℕ → IrqCall
  prio_set : ℕ → ℕ → IrqCall
  clear_all_enabled_irqs clear_all_irqs timer_triggered : IrqCall
  disable_irq clear_irq reeval_level_irq enable_irq : ℕ → IrqCall
  set_irq raise_level_irq_line lower_level_irq_line raise_im raise_im_from_sw : ℕ → IrqCall
  change_lock : ℕ → IrqCall

-- The calls that shift by their argument unchecked are given an interrupt.
abbrev pub IsCall : IrqCall → Type 0
IsCall (disable_irq irq) = irq < 47
IsCall (clear_irq irq) = irq < 47
IsCall (reeval_level_irq irq) = irq < 47
IsCall (enable_irq irq) = irq < 47
IsCall _ = Unit

module _ ⦃env : Env⦄ where
  unfoldable pub call : IrqCall → Soc → Soc
  call (set_cur_prio n) s = with_irq (hw_irq_ctrl_set_cur_prio n s.irq) s
  call (prio_set irq prio) s = with_irq (hw_irq_ctrl_prio_set irq prio s.irq) s
  call clear_all_enabled_irqs s = with_irq (hw_irq_ctrl_clear_all_enabled_irqs s.irq) s
  call clear_all_irqs s = with_irq (hw_irq_ctrl_clear_all_irqs s.irq) s
  call timer_triggered s = hw_irq_ctrl_timer_triggered s
  call (disable_irq irq) s = with_irq (hw_irq_ctrl_disable_irq irq s.irq) s
  call (clear_irq irq) s = with_irq (hw_irq_ctrl_clear_irq irq s.irq) s
  call (reeval_level_irq irq) s = with_irq (hw_irq_ctrl_reeval_level_irq irq s.irq) s
  call (enable_irq irq) s = hw_irq_ctrl_enable_irq irq s
  call (set_irq irq) s = hw_irq_ctrl_set_irq irq s
  call (raise_level_irq_line irq) s = hw_irq_ctrl_raise_level_irq_line irq s
  call (lower_level_irq_line irq) s = hw_irq_ctrl_lower_level_irq_line irq s
  call (raise_im irq) s = hw_irq_ctrl_raise_im irq s
  call (raise_im_from_sw irq) s = hw_irq_ctrl_raise_im_from_sw irq s
  call (change_lock n) s = (hw_irq_ctrl_change_lock n s).0

  module _ (woken : (s : Soc) → IsPending s.irq → IsPending (env.posix_interrupt_raised s).irq)
      (handled : (s : Soc)
        → IsPending s.irq
        → IsPending (env.posix_irq_handler_im_from_sw s).irq) where
    from_hw-IsPending : (s : Soc) → Pended s → Pended (irq_raising_from_hw_now s)
    unfolding irq_raising_from_hw_now
    from_hw-IsPending s v =
        if_intro Pended (not s.irq.irqs_locked || s.irq.lock_ignore)
          (woken _
            (IsPending-frame s.irq.timer s.irq.irqs_locked false s.irq.currently_running_prio v))
          v

    from_sw-IsPending : (irq : ℕ) (s : Soc) → Pended s → Pended (hw_irq_ctrl_raise_im_from_sw irq s)
    unfolding hw_irq_ctrl_raise_im_from_sw
    from_sw-IsPending irq s v =
        let p = prefix-IsPending irq v in
        if_intro Pended (hw_irq_ctrl_irq_raise_prefix irq s.irq).irqs_locked p (handled _ p)

    enable-IsPending :
        (irq : ℕ) (s : Soc) → irq < 47 → Pended s → Pended (hw_irq_ctrl_enable_irq irq s)
    unfolding hw_irq_ctrl_enable_irq
    enable-IsPending irq s h v = elim (Bool-cases (nonzero (bit_and s.irq.irq_premask (2 ^ irq)))) [
      | inl waiting ↦ rw waiting (
          let p = prefix_enabled-IsPending irq h v in
          unfold hw_irq_ctrl_raise_im_from_sw in if_intro Pended _ p (handled _ p))
      | inr idle ↦ rw idle (enabled-IsPending irq h v idle)
    ]

    change_lock-IsPending : (n : ℕ) (s : Soc) → Pended s → Pended (hw_irq_ctrl_change_lock n s).0
    unfolding hw_irq_ctrl_change_lock
    change_lock-IsPending n s v =
        let p =
          IsPending-frame s.irq.timer (nonzero n) s.irq.lock_ignore s.irq.currently_running_prio
            v in
        if_intro Pended (s.irq.irqs_locked && n == 0 && nonzero s.irq.irq_status) (handled _ p) p

    -- Every call keeps this: what is delivered to the processor is pended, what is pended and
    -- enabled is delivered, the words have 64 bits and the priorities 8, if what the processor does
    -- when it is woken keeps it. An interrupt that a call shifts by unchecked is one of the 47.
    pub call-IsPending :
        (op : IrqCall) (s : Soc) → IsCall op → IsPending s.irq → IsPending (call op s).irq
    unfolding call
    call-IsPending (set_cur_prio n) s h v =
        unfold hw_irq_ctrl_set_cur_prio in
        IsPending-frame s.irq.timer s.irq.irqs_locked s.irq.lock_ignore n v
    call-IsPending (prio_set irq prio) s h v = prio_set-IsPending irq prio v
    call-IsPending clear_all_enabled_irqs s h v = clear_all_enabled-IsPending v
    call-IsPending clear_all_irqs s h v = clear_all-IsPending v
    call-IsPending timer_triggered s h v =
        unfold hw_irq_ctrl_timer_triggered in
        rw find_next-irq (
          from_hw-IsPending _ (
            IsPending-frame env.time_never s.irq.irqs_locked s.irq.lock_ignore
              s.irq.currently_running_prio v))
    call-IsPending (disable_irq irq) s h v = disable_irq-IsPending irq (omega arith) v
    call-IsPending (clear_irq irq) s h v = clear_irq-IsPending irq (omega arith) v
    call-IsPending (reeval_level_irq irq) s h v = reeval-IsPending irq (omega arith) v
    call-IsPending (enable_irq irq) s h v = enable-IsPending irq s h v
    call-IsPending (set_irq irq) s h v = set_irq-IsPending irq s v
    call-IsPending (raise_level_irq_line irq) s h v = raise_line-IsPending irq s v
    call-IsPending (lower_level_irq_line irq) s h v = lower_line-IsPending irq s v
    call-IsPending (raise_im irq) s h v =
        unfold hw_irq_ctrl_raise_im in from_hw-IsPending _ (prefix-IsPending irq v)
    call-IsPending (raise_im_from_sw irq) s h v = from_sw-IsPending irq s v
    call-IsPending (change_lock n) s h v = change_lock-IsPending n s v
