-- ===== src/Irq.antt =====
-- src/HW_models/irq_ctrl.c: the interrupt controller. A function that wakes the processor calls the
-- board, which is a parameter.
use ext_nrf52_hw_models.Common.{
  ℕ, zero, suc, ◌+◌, ◌-◌, ◌/◌, ◌%◌, ◌^◌, Bool, true, false, not, ◌&&◌, ◌||◌, Option, none, some,
  ltb, leb, ◌==◌, if◌then◌else◌, nonzero, bit_and, bit_or, clear64, u8, update,
}
use ext_nrf52_hw_models.Soc.{Soc, IrqCtrl}
use ext_nrf52_hw_models.Soc.Env.{Env}
use ext_nrf52_hw_models.Top.{nrf_hw_find_next_timer_to_trigger}

abbrev pub nrf_hw_nbr_irqs : ℕ
nrf_hw_nbr_irqs = 47

abbrev pub phony_hard_irq : ℕ
phony_hard_irq = 0xffff

-- (uint64_t)1 << irq
abbrev pub irq_bit : ℕ → ℕ
irq_bit irq = 2 ^ irq

-- The functions below that touch the controller's variables alone.

unfoldable pub hw_irq_ctrl_init : IrqCtrl → IrqCtrl
hw_irq_ctrl_init c = record c {
  irq_mask = 0;
  irq_premask = 0;
  irqs_locked = false;
  lock_ignore = false;
  irq_prio = λ i. if ltb i nrf_hw_nbr_irqs then 255 else c.irq_prio i;
}

unfoldable pub hw_irq_ctrl_set_cur_prio : ℕ → IrqCtrl → IrqCtrl
hw_irq_ctrl_set_cur_prio new c = record c { currently_running_prio = new }

unfoldable pub hw_irq_ctrl_prio_set : ℕ → ℕ → IrqCtrl → IrqCtrl
hw_irq_ctrl_prio_set irq prio c = record c { irq_prio = update c.irq_prio irq (u8 prio) }

unfoldable pub hw_irq_ctrl_clear_all_enabled_irqs : IrqCtrl → IrqCtrl
hw_irq_ctrl_clear_all_enabled_irqs c = record c {
  irq_status = 0;
  irq_premask = clear64 c.irq_premask c.irq_mask;
}

unfoldable pub hw_irq_ctrl_clear_all_irqs : IrqCtrl → IrqCtrl
hw_irq_ctrl_clear_all_irqs c = record c { irq_status = 0; irq_premask = 0 }

unfoldable pub hw_irq_ctrl_disable_irq : ℕ → IrqCtrl → IrqCtrl
hw_irq_ctrl_disable_irq irq c = record c { irq_mask = clear64 c.irq_mask (irq_bit irq) }

unfoldable pub hw_irq_ctrl_is_irq_enabled : ℕ → IrqCtrl → Bool
hw_irq_ctrl_is_irq_enabled irq c = nonzero (bit_and c.irq_mask (irq_bit irq))

unfoldable pub hw_irq_ctrl_clear_irq : ℕ → IrqCtrl → IrqCtrl
hw_irq_ctrl_clear_irq irq c = record c {
  irq_status = clear64 c.irq_status (irq_bit irq);
  irq_premask = clear64 c.irq_premask (irq_bit irq);
}

-- irq_premask |= irq_bit, and irq_status |= irq_bit where the interrupt is enabled.
unfoldable pub pend : ℕ → IrqCtrl → IrqCtrl
pend irq c = record c {
  irq_premask = bit_or c.irq_premask (irq_bit irq);
  irq_status =
      if nonzero (bit_and c.irq_mask (irq_bit irq))
      then bit_or c.irq_status (irq_bit irq)
      else c.irq_status;
}

unfoldable pub hw_irq_ctrl_reeval_level_irq : ℕ → IrqCtrl → IrqCtrl
hw_irq_ctrl_reeval_level_irq irq c =
    if nonzero (bit_and c.irq_lines (irq_bit irq)) then pend irq c else c

unfoldable pub hw_irq_ctrl_irq_raise_prefix : ℕ → IrqCtrl → IrqCtrl
hw_irq_ctrl_irq_raise_prefix irq c =
    if ltb irq nrf_hw_nbr_irqs
    then pend irq c
    else if irq == phony_hard_irq
    then record c { lock_ignore = true }
    else c

-- __builtin_ffs of the int that x is converted to: 1 plus the index of the lowest set bit among its
-- 32 bits, or 0.
unfoldable pub lowest_set : ℕ → ℕ → ℕ → ℕ
lowest_set zero x i = 0
lowest_set (suc n) x i =
    let rest = lowest_set n (x / 2) (i + 1) in if x % 2 == 1 then i + 1 else rest

unfoldable pub builtin_ffs : ℕ → ℕ
unfolding lowest_set
builtin_ffs x = lowest_set 32 x 0

-- winner and winner_prio; none is -1.
pub record Best : Type 0 where
  pub winner : Option ℕ
  pub winner_prio : ℕ

-- What the search gives: the number that is returned, or the fault that shifting by -1 is in C.
pub data Search : Type 0 where
  returns : Option ℕ → Search
  shift_fault out_of_fuel : Search

abbrev pub consider : IrqCtrl → ℕ → Best → Best
consider c irq_nbr best =
    if ltb (c.irq_prio irq_nbr) best.winner_prio
      && ltb (c.irq_prio irq_nbr) c.currently_running_prio
    then record { winner = some irq_nbr; winner_prio = c.irq_prio irq_nbr }
    else best

-- The loop, with its local irq_status.
unfoldable pub search_irqs : ℕ → IrqCtrl → ℕ → Best → Search
search_irqs zero c status best = out_of_fuel
search_irqs (suc fuel) c status best =
    let irq_nbr = builtin_ffs status - 1 in
    let rest = search_irqs fuel c (clear64 status (irq_bit irq_nbr)) (consider c irq_nbr best) in
    if status == 0
    then returns best.winner
    else if builtin_ffs status == 0
    then shift_fault
    else rest

-- 33 rounds are enough: each round clears one of 32 bits.
unfoldable pub hw_irq_ctrl_get_highest_prio_irq : IrqCtrl → Search
unfolding search_irqs
hw_irq_ctrl_get_highest_prio_irq c =
    if c.irqs_locked
    then returns none
    else search_irqs 33 c c.irq_status (record { winner = none; winner_prio = 256 })

abbrev pub with_irq : IrqCtrl → Soc → Soc
with_irq c s = record s { irq = c }

-- bs_trace_error_* ends the process.
abbrev pub trace_error : Soc → Soc
trace_error s = record s { halted = true }

unfoldable pub hw_irq_ctrl_set_irq : ℕ → Soc → Soc
hw_irq_ctrl_set_irq irq s =
    let c = hw_irq_ctrl_irq_raise_prefix irq s.irq in
    if not c.irqs_locked || c.lock_ignore
    then nrf_hw_find_next_timer_to_trigger (with_irq (record c { timer = s.now }) s)
    else with_irq c s

unfoldable pub hw_irq_ctrl_raise_level_irq_line : ℕ → Soc → Soc
hw_irq_ctrl_raise_level_irq_line irq s =
    if leb nrf_hw_nbr_irqs irq
    then trace_error s
    else if nonzero (bit_and s.irq.irq_lines (irq_bit irq))
    then s
    else hw_irq_ctrl_set_irq irq
        (with_irq (record (s.irq) { irq_lines = bit_or s.irq.irq_lines (irq_bit irq) }) s)

unfoldable pub hw_irq_ctrl_lower_level_irq_line : ℕ → Soc → Soc
hw_irq_ctrl_lower_level_irq_line irq s =
    if leb nrf_hw_nbr_irqs irq
    then trace_error s
    else with_irq (record (s.irq) { irq_lines = clear64 s.irq.irq_lines (irq_bit irq) }) s

module _ ⦃env : Env⦄ where
  unfoldable pub irq_raising_from_hw_now : Soc → Soc
  irq_raising_from_hw_now s =
      if not s.irq.irqs_locked || s.irq.lock_ignore
      then env.posix_interrupt_raised (with_irq (record (s.irq) { lock_ignore = false }) s)
      else s

  unfoldable pub hw_irq_ctrl_raise_im : ℕ → Soc → Soc
  hw_irq_ctrl_raise_im irq s =
      irq_raising_from_hw_now (with_irq (hw_irq_ctrl_irq_raise_prefix irq s.irq) s)

  unfoldable pub hw_irq_ctrl_raise_im_from_sw : ℕ → Soc → Soc
  hw_irq_ctrl_raise_im_from_sw irq s =
      let s' = with_irq (hw_irq_ctrl_irq_raise_prefix irq s.irq) s in
      if s'.irq.irqs_locked then s' else env.posix_irq_handler_im_from_sw s'

  unfoldable pub hw_irq_ctrl_enable_irq : ℕ → Soc → Soc
  hw_irq_ctrl_enable_irq irq s =
      let s' = with_irq (record (s.irq) { irq_mask = bit_or s.irq.irq_mask (irq_bit irq) }) s in
      if nonzero (bit_and s'.irq.irq_premask (irq_bit irq))
      then hw_irq_ctrl_raise_im_from_sw irq s'
      else s'

  -- The new state and the previous lock.
  unfoldable pub hw_irq_ctrl_change_lock : ℕ → Soc → Soc × Bool
  hw_irq_ctrl_change_lock new_lock s =
      let previous_lock = s.irq.irqs_locked in
      let s' = with_irq (record (s.irq) { irqs_locked = nonzero new_lock }) s in
      (
        if previous_lock && new_lock == 0 && nonzero s'.irq.irq_status
            then env.posix_irq_handler_im_from_sw s'
            else s',
        previous_lock,
      )

  unfoldable pub hw_irq_ctrl_timer_triggered : Soc → Soc
  hw_irq_ctrl_timer_triggered s =
      nrf_hw_find_next_timer_to_trigger
        (irq_raising_from_hw_now (with_irq (record (s.irq) { timer = env.time_never }) s))
