-- ===== src/IrqLaws/Winner.antt =====
-- hw_irq_ctrl_get_highest_prio_irq of src/HW_models/irq_ctrl.c: which interrupt it returns.
mod Lowest
use ext_nrf52_hw_models.Common.{
  ℕ, zero, suc, ◌+◌, ◌-◌, ◌^◌, ◌≤◌, ◌<◌, ◌≡◌, refl, sym, ap, ◌∙◌, ◌⊎◌, inl, inr, Bool, true, false,
  not, ◌&&◌, Option, none, some, ltb, ◌==◌, if◌then◌else◌, Bool-cases, ltb→lt, ltb→le, ==_iff,
  clear64, arith,
}
use ext_nrf52_hw_models.Common.Bits.{bit, bit-zero, eq_of_bits, bit_above}
use ext_nrf52_hw_models.Common.Clear.{bit-clear_one, clear64-le}
use ext_nrf52_hw_models.Soc.{IrqCtrl}
use ext_nrf52_hw_models.Irq.{
  Best, Search, returns, shift_fault, consider, builtin_ffs, search_irqs,
  hw_irq_ctrl_get_highest_prio_irq,
}
use Lowest.{IsLowest, builtin_ffs-cases}

-- Interrupt j is delivered and may interrupt what is running.
abbrev pub IsEligible : IrqCtrl → ℕ → Type 0
IsEligible c j = (bit c.irq_status j ≡ true) × (c.irq_prio j < c.currently_running_prio)

-- The winner has the highest priority (the least number) of the eligible interrupts below lo, and
-- is the first with it.
abbrev pub IsWinner : IrqCtrl → ℕ → Option ℕ → Type 0
IsWinner c lo none = (j : ℕ) → j < lo → ¬ IsEligible c j
IsWinner c lo (some w) =
    (w < lo)
    × IsEligible c w
    × ((j : ℕ) → j < lo → IsEligible c j → c.irq_prio w ≤ c.irq_prio j)
    × ((j : ℕ) → j < w → IsEligible c j → c.irq_prio w < c.irq_prio j)

abbrev IsPrio : IrqCtrl → Option ℕ → ℕ → Type 0
IsPrio c none p = p ≡ 256
IsPrio c (some w) p = p ≡ c.irq_prio w

-- What holds of the loop's variables when the bits below lo have been seen.
record IsSeen (c : IrqCtrl) (lo status : ℕ) (best : Best) : Type 0 where
  fits : status < 2 ^ 64
  gone : (j : ℕ) → j < lo → bit status j ≡ false
  left : (j : ℕ) → lo ≤ j → bit status j ≡ bit c.irq_status j
  won : IsWinner c lo best.winner
  prio : IsPrio c best.winner best.winner_prio

module _ (c : IrqCtrl) (prio_fits : (i : ℕ) → c.irq_prio i < 256) where
  -- Bits between lo and k are clear, so the winner stays the winner up to k.
  IsWinner-skip :
      (lo k : ℕ) (w : Option ℕ)
      → lo ≤ k
      → ((j : ℕ) → lo ≤ j → j < k → bit c.irq_status j ≡ false)
      → IsWinner c lo w
      → IsWinner c k w
  IsWinner-skip lo k none le clear h = λ j p e. elim (Bool-cases (ltb j lo)) [
    | inl old ↦ h j (ltb→lt j lo old) e
    | inr new ↦ let q = clear j (ltb→le j lo new) p in ground arith
  ]
  IsWinner-skip lo k (some w) le clear h = (
    omega arith,
    h.1,
    λ j p e. elim (Bool-cases (ltb j lo)) [
      | inl old ↦ h.2 j (ltb→lt j lo old) e
      | inr new ↦ let q = clear j (ltb→le j lo new) p in ground arith
    ],
    h.3,
  )

  consider-IsWinner :
      (k : ℕ) (w : Option ℕ) (wp : ℕ)
      → bit c.irq_status k ≡ true
      → IsWinner c k w
      → IsPrio c w wp
      → let best' = consider c k (record { winner = w; winner_prio = wp }) in
        IsWinner c (k + 1) best'.winner × IsPrio c best'.winner best'.winner_prio
  consider-IsWinner k none wp set h p =
      elim (Bool-cases (ltb (c.irq_prio k) wp && ltb (c.irq_prio k) c.currently_running_prio)) [
        | inl better ↦ rw better (
          (
            omega arith,
            (set, ground arith),
            λ j below e. elim (Bool-cases (ltb j k)) [
              | inl old ↦ absurd (h j (ltb→lt j k old) e)
              | inr new ↦ let here : j ≡ k = omega (arith, ltb→le j k new) in rw here (omega arith)
            ],
            λ j below e. absurd (h j below e),
          ),
          refl,
        )
        | inr worse ↦ rw worse (
          λ j below e. elim (Bool-cases (ltb j k)) [
            | inl old ↦ h j (ltb→lt j k old) e
            | inr new ↦
                let here : j ≡ k = omega (arith, ltb→le j k new) in
                let less : c.irq_prio k < c.currently_running_prio = rw here at (e.1) in
                ground (arith, prio_fits k)
          ],
          p,
        )
      ]
  consider-IsWinner k (some w) wp set h p =
      elim (Bool-cases (ltb (c.irq_prio k) wp && ltb (c.irq_prio k) c.currently_running_prio)) [
        | inl better ↦
            let less : c.irq_prio k < c.irq_prio w = ground arith in
            rw better (
              (
                omega arith,
                (set, ground arith),
                λ j below e. elim (Bool-cases (ltb j k)) [
                  | inl old ↦ let q = h.2 j (ltb→lt j k old) e in omega arith
                  | inr new ↦
                      let here : j ≡ k = omega (arith, ltb→le j k new) in rw here (omega arith)
                ],
                λ j below e. let q = h.2 j below e in omega arith,
              ),
              refl,
            )
        | inr worse ↦ rw worse (
          (
            omega arith,
            h.1,
            λ j below e. elim (Bool-cases (ltb j k)) [
              | inl old ↦ h.2 j (ltb→lt j k old) e
              | inr new ↦
                  let here : j ≡ k = omega (arith, ltb→le j k new) in
                  let run : c.irq_prio k < c.currently_running_prio = rw here at (e.1) in
                  rw here (ground arith)
            ],
            h.3,
          ),
          p,
        )
      ]

  -- One round of the loop, at the lowest set bit k.
  IsSeen-step :
      (lo status k : ℕ) (best : Best)
      → IsSeen c lo status best
      → IsLowest 32 status k
      → IsSeen c (k + 1) (clear64 status (2 ^ k)) (consider c k best) × (lo ≤ k)
  IsSeen-step lo status k best h low = (
    record {
      fits = omega (arith, h.fits, clear64-le status (2 ^ k));
      gone = λ j below.
          ground (arith, low.unset j, bit-clear_one k j status (omega (arith, low.inside)) h.fits);
      left = λ j above.
          ground
            (arith, from, h.left j, bit-clear_one k j status (omega (arith, low.inside)) h.fits);
      won = next.0;
      prio = next.1;
    },
    from,
  )
    where
      from : lo ≤ k
      from = ground (arith, h.gone k, low.is_set)

      next :
          IsWinner c (k + 1) (consider c k best).winner
          × IsPrio c (consider c k best).winner (consider c k best).winner_prio
      next =
          consider-IsWinner k best.winner best.winner_prio
            (ground (arith, from, h.left k, low.is_set))
            (IsWinner-skip lo k best.winner from (λ j p q. ground (arith, h.left j, low.unset j))
              h.won)
            h.prio

  search-IsWinner :
      (fuel lo status : ℕ) (best : Best)
      → 33 ≤ fuel + lo
      → lo ≤ 32
      → status < 2 ^ 32
      → IsSeen c lo status best
      → (w : Option ℕ) × (search_irqs fuel c status best ≡ returns w) × IsWinner c 32 w
  unfolding search_irqs
  search-IsWinner zero lo status best enough le fits h = absurd (omega arith)
  search-IsWinner (suc fuel) lo status best enough le fits h = elim (Bool-cases (status == 0)) [
    | inl done ↦
        let empty : status ≡ 0 = (==_iff _ _).0 done in
        rw done (
          best.winner,
          refl,
          IsWinner-skip lo 32 best.winner le
              (λ j p q. sym (h.left j p) ∙ ap (λ (t : ℕ). bit t j) empty ∙ bit-zero j) h.won,
        )
    | inr more ↦ rw more (elim (builtin_ffs-cases status) [
      | inl (_, clear) ↦
          let empty : status ≡ 0 =
            eq_of_bits 32 status 0 fits (omega arith) (λ i p. clear i p ∙ sym (bit-zero i)) in
          absurd (ground arith)
      | inr (k, at, low) ↦
          let nbr : k + 1 - 1 ≡ k = omega arith in
          let next = IsSeen-step lo status k best h low in
          let found : (k + 1 == 0) ≡ false = ground arith in
          rw (at, nbr, found)
            (search-IsWinner fuel (k + 1) (clear64 status (2 ^ k)) (consider c k best) (omega arith)
              (omega (arith, low.inside)) (omega (arith, clear64-le status (2 ^ k))) next.0)
    ])
  ]

-- While an interrupt above the 32 that __builtin_ffs sees is left, the loop does not end by its test,
-- and once the lower ones are cleared it shifts by -1.
search_faults :
    (c : IrqCtrl) (irq fuel lo status : ℕ) (best : Best)
    → 33 ≤ fuel + lo
    → lo ≤ 32
    → 32 ≤ irq
    → status < 2 ^ 64
    → bit status irq ≡ true
    → ((j : ℕ) → j < lo → bit status j ≡ false)
    → search_irqs fuel c status best ≡ shift_fault
unfolding search_irqs
search_faults c irq zero lo status best enough le high fits set gone = absurd (omega arith)
search_faults c irq (suc fuel) lo status best enough le high fits set gone =
    let left : (status == 0) ≡ false = elim (Bool-cases (status == 0)) [
      | inl done ↦
          let empty : status ≡ 0 = (==_iff _ _).0 done in
          let unset : bit status irq ≡ false = ap (λ (t : ℕ). bit t irq) empty ∙ bit-zero irq in
          absurd (ground arith)
      | inr more ↦ more
    ] in
    rw left (elim (builtin_ffs-cases status) [
      | inl (none_low, _) ↦ rw none_low
      | inr (k, at, low) ↦
          let nbr : k + 1 - 1 ≡ k = omega arith in
          let found : (k + 1 == 0) ≡ false = ground arith in
          let cleared = λ (j : ℕ). bit-clear_one k j status (omega (arith, low.inside)) fits in
          let from : lo ≤ k = ground (arith, gone k, low.is_set) in
          rw (at, nbr, found)
            (search_faults c irq fuel (k + 1) (clear64 status (2 ^ k)) (consider c k best)
              (omega arith) (omega (arith, low.inside)) high
              (omega (arith, fits, clear64-le status (2 ^ k)))
              (ground (arith, cleared irq, low.inside))
              (λ j below. ground (arith, low.unset j, cleared j)))
    ])

-- With interrupts unlocked, 8-bit priorities and no delivered interrupt above number 31,
-- hw_irq_ctrl_get_highest_prio_irq returns: the first of the delivered interrupts with the highest
-- priority, if one may interrupt what is running, and otherwise -1.
pub get_highest_prio_irq-IsWinner :
    (c : IrqCtrl)
    → c.irqs_locked ≡ false
    → ((i : ℕ) → c.irq_prio i < 256)
    → c.irq_status < 2 ^ 32
    → (w : Option ℕ) × (hw_irq_ctrl_get_highest_prio_irq c ≡ returns w) × IsWinner c 32 w
unfolding hw_irq_ctrl_get_highest_prio_irq
get_highest_prio_irq-IsWinner c unlocked prio_fits fits = rw unlocked (
    search-IsWinner c prio_fits 33 0 c.irq_status _ (omega arith) (omega arith) fits (record {
      fits = omega arith;
      gone = λ j p. absurd (omega arith);
      left = λ j p. refl;
      won = λ j p. absurd (omega arith);
      prio = refl;
    }))

-- With interrupts unlocked and any delivered interrupt with a number from 32, whatever its priority,
-- hw_irq_ctrl_get_highest_prio_irq comes to a shift by -1, which C does not define.
pub get_highest_prio_irq_faults :
    (c : IrqCtrl) (irq : ℕ)
    → c.irqs_locked ≡ false
    → c.irq_status < 2 ^ 64
    → 32 ≤ irq
    → bit c.irq_status irq ≡ true
    → hw_irq_ctrl_get_highest_prio_irq c ≡ shift_fault
unfolding hw_irq_ctrl_get_highest_prio_irq
get_highest_prio_irq_faults c irq unlocked fits high set = rw unlocked (
    search_faults c irq 33 0 c.irq_status _ (omega arith) (omega arith) high fits set
      (λ j p. absurd (omega arith)))
