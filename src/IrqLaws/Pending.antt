-- ===== src/IrqLaws/Pending.antt =====
-- What holds of the pending and status words of src/HW_models/irq_ctrl.c between two calls.
use ext_nrf52_hw_models.Common.{
  ℕ, ◌^◌, ◌<◌, ◌≡◌, Bool, true, false, not, ◌||◌, ltb, ◌==◌, nonzero, bit_and, bit_or, arith,
  Bool-cases, inl, inr, ltb→lt, leb→lt, leb, if_intro,
}
use ext_nrf52_hw_models.Common.Bits.{bit, bit-zero, bit_or-lt, test_bit}
use ext_nrf52_hw_models.Common.Clear.{bit-clear64, bit-clear_one, bit-set, clear64-le, pow-lt}
use ext_nrf52_hw_models.Soc.{Soc, IrqCtrl}
use ext_nrf52_hw_models.TopLaws.Scheduled.{find_next-irq}
use ext_nrf52_hw_models.Irq.{
  hw_irq_ctrl_prio_set, hw_irq_ctrl_clear_all_enabled_irqs, hw_irq_ctrl_clear_all_irqs,
  hw_irq_ctrl_disable_irq, hw_irq_ctrl_clear_irq, pend, hw_irq_ctrl_reeval_level_irq,
  hw_irq_ctrl_irq_raise_prefix, hw_irq_ctrl_set_irq, hw_irq_ctrl_raise_level_irq_line,
  hw_irq_ctrl_lower_level_irq_line,
}

pub record IsPending (c : IrqCtrl) : Type 0 where
  pub lines_fit : c.irq_lines < 2 ^ 64
  pub status_fits : c.irq_status < 2 ^ 64
  pub premask_fits : c.irq_premask < 2 ^ 64
  pub mask_fits : c.irq_mask < 2 ^ 64
  pub prio_fits : (i : ℕ) → c.irq_prio i < 256
  -- What is delivered is pended.
  pub pended : (i : ℕ) → bit c.irq_status i ≡ true → bit c.irq_premask i ≡ true
  -- What is pended and enabled is delivered.
  pub delivered :
      (i : ℕ) → bit c.irq_premask i ≡ true → bit c.irq_mask i ≡ true → bit c.irq_status i ≡ true

-- The other variables are not spoken of.
pub IsPending-frame :
    (timer : ℕ) (locked ignore : Bool) (prio : ℕ) {c : IrqCtrl}
    → IsPending c
    → IsPending (record c {
      timer = timer;
      irqs_locked = locked;
      lock_ignore = ignore;
      currently_running_prio = prio;
    })
IsPending-frame timer locked ignore prio v = record {
  lines_fit = v.lines_fit;
  status_fits = v.status_fits;
  premask_fits = v.premask_fits;
  mask_fits = v.mask_fits;
  prio_fits = v.prio_fits;
  pended = v.pended;
  delivered = v.delivered;
}

pub pend-IsPending : (irq : ℕ) {c : IrqCtrl} → irq < 64 → IsPending c → IsPending (pend irq c)
unfolding pend
pend-IsPending irq {c} h v = record {
  lines_fit = v.lines_fit;
  status_fits =
      ground
        (arith, v.status_fits, bit_or-lt 64 c.irq_status (2 ^ irq) v.status_fits (pow-lt irq 64 h));
  premask_fits = bit_or-lt 64 c.irq_premask (2 ^ irq) v.premask_fits (pow-lt irq 64 h);
  mask_fits = v.mask_fits;
  prio_fits = v.prio_fits;
  pended = λ i. ground (arith, v.pended i, bit-set irq i c.irq_premask, bit-set irq i c.irq_status);
  delivered = λ i. ground (
    arith,
    v.delivered i,
    bit-set irq i c.irq_premask,
    bit-set irq i c.irq_status,
    test_bit irq c.irq_mask,
  );
}

pub clear_irq-IsPending :
    (irq : ℕ) {c : IrqCtrl} → irq < 64 → IsPending c → IsPending (hw_irq_ctrl_clear_irq irq c)
unfolding hw_irq_ctrl_clear_irq
clear_irq-IsPending irq {c} h v = record {
  lines_fit = v.lines_fit;
  status_fits = omega (arith, v.status_fits, clear64-le c.irq_status (2 ^ irq));
  premask_fits = omega (arith, v.premask_fits, clear64-le c.irq_premask (2 ^ irq));
  mask_fits = v.mask_fits;
  prio_fits = v.prio_fits;
  pended = λ i. ground (
    arith,
    v.pended i,
    bit-clear_one irq i c.irq_premask h v.premask_fits,
    bit-clear_one irq i c.irq_status h v.status_fits,
  );
  delivered = λ i. ground (
    arith,
    v.delivered i,
    bit-clear_one irq i c.irq_premask h v.premask_fits,
    bit-clear_one irq i c.irq_status h v.status_fits,
  );
}

pub disable_irq-IsPending :
    (irq : ℕ) {c : IrqCtrl} → irq < 64 → IsPending c → IsPending (hw_irq_ctrl_disable_irq irq c)
unfolding hw_irq_ctrl_disable_irq
disable_irq-IsPending irq {c} h v = record {
  lines_fit = v.lines_fit;
  status_fits = v.status_fits;
  premask_fits = v.premask_fits;
  mask_fits = omega (arith, v.mask_fits, clear64-le c.irq_mask (2 ^ irq));
  prio_fits = v.prio_fits;
  pended = v.pended;
  delivered = λ i. ground (arith, v.delivered i, bit-clear_one irq i c.irq_mask h v.mask_fits);
}

pub clear_all_enabled-IsPending :
    {c : IrqCtrl} → IsPending c → IsPending (hw_irq_ctrl_clear_all_enabled_irqs c)
unfolding hw_irq_ctrl_clear_all_enabled_irqs
clear_all_enabled-IsPending {c} v = record {
  lines_fit = v.lines_fit;
  status_fits = omega arith;
  premask_fits = omega (arith, v.premask_fits, clear64-le c.irq_premask c.irq_mask);
  mask_fits = v.mask_fits;
  prio_fits = v.prio_fits;
  pended = λ i. ground (arith, bit-zero i);
  delivered =
      λ i. ground (arith, bit-clear64 i c.irq_premask c.irq_mask v.premask_fits v.mask_fits);
}

pub clear_all-IsPending : {c : IrqCtrl} → IsPending c → IsPending (hw_irq_ctrl_clear_all_irqs c)
unfolding hw_irq_ctrl_clear_all_irqs
clear_all-IsPending {c} v = record {
  lines_fit = v.lines_fit;
  status_fits = omega arith;
  premask_fits = omega arith;
  mask_fits = v.mask_fits;
  prio_fits = v.prio_fits;
  pended = λ i. ground (arith, bit-zero i);
  delivered = λ i. ground (arith, bit-zero i);
}

pub prio_set-IsPending :
    (irq prio : ℕ) {c : IrqCtrl} → IsPending c → IsPending (hw_irq_ctrl_prio_set irq prio c)
unfolding hw_irq_ctrl_prio_set
prio_set-IsPending irq prio {c} v = record {
  lines_fit = v.lines_fit;
  status_fits = v.status_fits;
  premask_fits = v.premask_fits;
  mask_fits = v.mask_fits;
  prio_fits = λ i. ground (arith, v.prio_fits i);
  pended = v.pended;
  delivered = v.delivered;
}

pub prefix-IsPending :
    (irq : ℕ) {c : IrqCtrl} → IsPending c → IsPending (hw_irq_ctrl_irq_raise_prefix irq c)
unfolding hw_irq_ctrl_irq_raise_prefix
prefix-IsPending irq {c} v = elim (Bool-cases (ltb irq 47)) [
  | inl real ↦ rw real (pend-IsPending irq (let p = ltb→lt irq 47 real in omega arith) v)
  | inr phony ↦ rw phony (elim (Bool-cases (irq == 0xffff)) [
    | inl hard ↦ rw hard (IsPending-frame c.timer c.irqs_locked true c.currently_running_prio v)
    | inr soft ↦ rw soft v
  ])
]

pub reeval-IsPending :
    (irq : ℕ) {c : IrqCtrl}
    → irq < 64
    → IsPending c
    → IsPending (hw_irq_ctrl_reeval_level_irq irq c)
unfolding hw_irq_ctrl_reeval_level_irq
reeval-IsPending irq {c} h v = elim (Bool-cases (nonzero (bit_and c.irq_lines (2 ^ irq)))) [
  | inl up ↦ rw up (pend-IsPending irq h v)
  | inr down ↦ rw down v
]

abbrev pub Pended : Soc → Type 0
Pended s = IsPending s.irq

-- An interrupt that is not pended may be enabled, and one that is, if it is pended anew.
pub enabled-IsPending :
    (irq : ℕ) {c : IrqCtrl}
    → irq < 47
    → IsPending c
    → nonzero (bit_and c.irq_premask (2 ^ irq)) ≡ false
    → IsPending (record c { irq_mask = bit_or c.irq_mask (2 ^ irq) })
enabled-IsPending irq {c} h v idle = record {
  lines_fit = v.lines_fit;
  status_fits = v.status_fits;
  premask_fits = v.premask_fits;
  mask_fits = bit_or-lt 64 c.irq_mask (2 ^ irq) v.mask_fits (pow-lt irq 64 (omega arith));
  prio_fits = v.prio_fits;
  pended = v.pended;
  delivered = λ i.
      ground (arith, v.delivered i, bit-set irq i c.irq_mask, test_bit irq c.irq_premask, idle);
}

pub prefix_enabled-IsPending :
    (irq : ℕ) {c : IrqCtrl}
    → irq < 47
    → IsPending c
    → IsPending
        (hw_irq_ctrl_irq_raise_prefix irq (record c { irq_mask = bit_or c.irq_mask (2 ^ irq) }))
unfolding hw_irq_ctrl_irq_raise_prefix pend
prefix_enabled-IsPending irq {c} h v =
    let fits = pow-lt irq 64 (omega arith) in
    let real : ltb irq 47 ≡ true = ground arith in
    rw real (record {
      lines_fit = v.lines_fit;
      status_fits =
          ground (arith, v.status_fits, bit_or-lt 64 c.irq_status (2 ^ irq) v.status_fits fits);
      premask_fits = bit_or-lt 64 c.irq_premask (2 ^ irq) v.premask_fits fits;
      mask_fits = bit_or-lt 64 c.irq_mask (2 ^ irq) v.mask_fits fits;
      prio_fits = v.prio_fits;
      pended =
          λ i. ground (arith, v.pended i, bit-set irq i c.irq_premask, bit-set irq i c.irq_status);
      delivered = λ i. ground (
        arith,
        v.delivered i,
        bit-set irq i c.irq_premask,
        bit-set irq i c.irq_status,
        bit-set irq i c.irq_mask,
        bit-set irq irq c.irq_mask,
        test_bit irq (bit_or c.irq_mask (2 ^ irq)),
      );
    })

pub set_irq-IsPending : (irq : ℕ) (s : Soc) → Pended s → Pended (hw_irq_ctrl_set_irq irq s)
unfolding hw_irq_ctrl_set_irq
set_irq-IsPending irq s v =
    let c = hw_irq_ctrl_irq_raise_prefix irq s.irq in
    let p = prefix-IsPending irq v in
    if_intro Pended (not c.irqs_locked || c.lock_ignore)
      (rw find_next-irq
        (IsPending-frame s.now c.irqs_locked c.lock_ignore c.currently_running_prio p))
      p

pub raise_line-IsPending :
    (irq : ℕ) (s : Soc) → Pended s → Pended (hw_irq_ctrl_raise_level_irq_line irq s)
unfolding hw_irq_ctrl_raise_level_irq_line
raise_line-IsPending irq s v = elim (Bool-cases (leb 47 irq)) [
  | inl phony ↦ rw phony v
  | inr real ↦ rw real (
      if_intro Pended (nonzero (bit_and s.irq.irq_lines (2 ^ irq))) v (
        set_irq-IsPending irq _ (record {
          lines_fit =
              bit_or-lt 64 s.irq.irq_lines (2 ^ irq) v.lines_fit
                (pow-lt irq 64 (let p = leb→lt 47 irq real in omega arith));
          status_fits = v.status_fits;
          premask_fits = v.premask_fits;
          mask_fits = v.mask_fits;
          prio_fits = v.prio_fits;
          pended = v.pended;
          delivered = v.delivered;
        })))
]

pub lower_line-IsPending :
    (irq : ℕ) (s : Soc) → Pended s → Pended (hw_irq_ctrl_lower_level_irq_line irq s)
unfolding hw_irq_ctrl_lower_level_irq_line
lower_line-IsPending irq s v = if_intro Pended (leb 47 irq) v (record {
  lines_fit = omega (arith, v.lines_fit, clear64-le s.irq.irq_lines (2 ^ irq));
  status_fits = v.status_fits;
  premask_fits = v.premask_fits;
  mask_fits = v.mask_fits;
  prio_fits = v.prio_fits;
  pended = v.pended;
  delivered = v.delivered;
})
