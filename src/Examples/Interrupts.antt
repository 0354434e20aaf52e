-- ===== src/Examples/Interrupts.antt =====
-- The interrupt controller and the level interrupts of the models at concrete states.
use ext_nrf52_hw_models.Common.{
  ◌↔◌, Passes, true, ℕ, ◌<◌, ◌≡◌, ◌≢◌, refl, ◌&&◌, ◌==◌, if◌then◌else◌, Option, arith, update,
}
use ext_nrf52_hw_models.Common.Bits.{bit, bit-zero}
use ext_nrf52_hw_models.Soc.{Soc, IrqCtrl}
use ext_nrf52_hw_models.Irq.{
  returns, shift_fault, hw_irq_ctrl_get_highest_prio_irq, hw_irq_ctrl_clear_irq,
  hw_irq_ctrl_reeval_level_irq,
}
use ext_nrf52_hw_models.IrqLaws.Pending.{IsPending}
use ext_nrf52_hw_models.IrqLaws.Calls.{raise_level_irq_line, call, call-IsPending}
use ext_nrf52_hw_models.IrqLaws.Winner.{
  IsWinner, get_highest_prio_irq-IsWinner, get_highest_prio_irq_faults,
}
use ext_nrf52_hw_models.IrqLaws.Lines.{reeval-clear}
use ext_nrf52_hw_models.Timer.{tim, nrf_timer_eval_interrupts}
use ext_nrf52_hw_models.TimerLaws.Line.{stands, eval_interrupts_lem}
use ext_nrf52_hw_models.Examples.Setup.{bench, quiet_irq, rest, idle_tim}

quiet-IsPending : IsPending quiet_irq
quiet-IsPending = record {
  lines_fit = omega arith;
  status_fits = omega arith;
  premask_fits = omega arith;
  mask_fits = omega arith;
  prio_fits = λ i. omega arith;
  pended = λ i set. let none = bit-zero i in absurd (ground arith);
  delivered = λ i set on. let none = bit-zero i in absurd (ground arith);
}

call-IsPending_example : IsPending (call ⦃env = bench⦄ (raise_level_irq_line 5) rest).irq
call-IsPending_example =
    call-IsPending ⦃env = bench⦄ (λ s v. v) (λ s v. v) (raise_level_irq_line 5) rest tt
      quiet-IsPending

-- Interrupts 3 and 7 are delivered, and 7 has the higher priority.
abbrev two_delivered : IrqCtrl
two_delivered = record quiet_irq {
  irq_status = 0x88;
  irq_premask = 0x88;
  irq_mask = 0x88;
  irq_prio = λ i. if i == 7 then 1 else 2;
}

two_delivered-fits : (i : ℕ) → two_delivered.irq_prio i < 256
two_delivered-fits i = ground arith

get_highest_prio_irq-IsWinner_example :
    (w : Option ℕ) × (hw_irq_ctrl_get_highest_prio_irq two_delivered ≡ returns w)
    × IsWinner two_delivered 32 w
get_highest_prio_irq-IsWinner_example =
    get_highest_prio_irq-IsWinner two_delivered refl two_delivered-fits (omega arith)

-- RTC2's interrupt, 36, is delivered.
abbrev high_delivered : IrqCtrl
high_delivered = record quiet_irq { irq_status = 0x10_0000_0000 }

get_highest_prio_irq_faults_example : hw_irq_ctrl_get_highest_prio_irq high_delivered ≡ shift_fault
get_highest_prio_irq_faults_example =
    get_highest_prio_irq_faults high_delivered 36 refl (omega arith) (omega arith) refl

-- The line of interrupt 5 is up.
abbrev line_up : IrqCtrl
line_up = record quiet_irq {
  irq_lines = 0x20;
  irq_mask = 0x20;
  irq_premask = 0x20;
  irq_status = 0x20;
}

line_up-IsPending : IsPending line_up
line_up-IsPending = record {
  lines_fit = omega arith;
  status_fits = omega arith;
  premask_fits = omega arith;
  mask_fits = omega arith;
  prio_fits = λ i. omega arith;
  pended = λ i set. set;
  delivered = λ i set on. set;
}

reeval-clear_example :
    let c' = hw_irq_ctrl_reeval_level_irq 5 (hw_irq_ctrl_clear_irq 5 line_up) in
    (bit c'.irq_premask 5 ≡ bit line_up.irq_lines 5)
    × (bit c'.irq_status 5 ≡ (bit line_up.irq_lines 5 && bit line_up.irq_mask 5))
    × ((i : ℕ)
        → i ≢ 5
        → (bit c'.irq_premask i ≡ bit line_up.irq_premask i)
          × (bit c'.irq_status i ≡ bit line_up.irq_status i))
reeval-clear_example = reeval-clear 5 line_up (omega arith) line_up-IsPending

-- TIMER0 with its first compare event standing and enabled.
abbrev matched : Soc
matched = record rest {
  timers = record (rest.timers) {
    inst =
        update rest.timers.inst 0 (record idle_tim {
          inten = 0x10000;
          events_compare = update idle_tim.events_compare 0 1;
        });
  };
}

eval_interrupts_lem_example :
    let s' = nrf_timer_eval_interrupts ⦃env = bench⦄ 0 matched in
    (((tim 0 s').int_line ≡ true) ↔ Passes (stands (tim 0 matched)) 4)
    × (bit s'.irq.irq_lines 8 ≡ (tim 0 s').int_line)
eval_interrupts_lem_example =
    eval_interrupts_lem ⦃env = bench⦄ 0 matched (omega arith) (omega arith) (omega arith) refl refl
