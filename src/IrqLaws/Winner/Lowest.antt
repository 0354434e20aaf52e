-- ===== src/IrqLaws/Winner/Lowest.antt =====
-- The lowest set bit among the 32 that __builtin_ffs looks at.
use ext_nrf52_hw_models.Common.{
  ℕ, zero, suc, ◌+◌, ◌/◌, ◌%◌, ◌<◌, ◌≡◌, refl, ◌⊎◌, inl, inr, true, false, ◌==◌, Bool-cases, arith,
}
use ext_nrf52_hw_models.Common.Bits.{bit}
use ext_nrf52_hw_models.Irq.{lowest_set, builtin_ffs}

-- k is the lowest set bit of x, below n.
pub record IsLowest (n x k : ℕ) : Type 0 where
  pub inside : k < n
  pub is_set : bit x k ≡ true
  pub unset : (j : ℕ) → j < k → bit x j ≡ false

lowest_set-cases :
    (n x i : ℕ)
    → ((lowest_set n x i ≡ 0) × ((j : ℕ) → j < n → bit x j ≡ false))
      ⊎ ((k : ℕ) × (lowest_set n x i ≡ i + k + 1) × IsLowest n x k)
unfolding lowest_set
lowest_set-cases zero x i = inl (refl, λ j h. absurd (omega arith))
lowest_set-cases (suc n) x i = elim (Bool-cases (x % 2 == 1)) [
  | inl odd ↦ rw odd (
      inr (
        0,
        omega arith,
        record { inside = omega arith; is_set = odd; unset = λ j h. absurd (omega arith) },
      ))
  | inr even ↦ rw even (step even (lowest_set-cases n (x / 2) (i + 1)))
]
  where
    below :
        (x % 2 == 1) ≡ false
        → (k : ℕ) → ((j : ℕ) → j < k → bit (x / 2) j ≡ false)
        → (j : ℕ) → j < suc k
        → bit x j ≡ false
    below even k h zero p = even
    below even k h (suc j) p = h j (omega arith)

    step :
        (x % 2 == 1) ≡ false
        → ((lowest_set n (x / 2) (i + 1) ≡ 0) × ((j : ℕ) → j < n → bit (x / 2) j ≡ false))
          ⊎ ((k : ℕ) × (lowest_set n (x / 2) (i + 1) ≡ i + 1 + k + 1) × IsLowest n (x / 2) k)
        → ((lowest_set n (x / 2) (i + 1) ≡ 0) × ((j : ℕ) → j < suc n → bit x j ≡ false))
          ⊎ ((k : ℕ) × (lowest_set n (x / 2) (i + 1) ≡ i + k + 1) × IsLowest (suc n) x k)
    step even (inl (none_set, clear)) = inl (none_set, below even n clear)
    step even (inr (k, at, low)) = inr (
      suc k,
      omega arith,
      record {
        inside = omega (arith, low.inside);
        is_set = low.is_set;
        unset = below even k low.unset;
      },
    )

pub builtin_ffs-cases :
    (x : ℕ)
    → ((builtin_ffs x ≡ 0) × ((j : ℕ) → j < 32 → bit x j ≡ false))
      ⊎ ((k : ℕ) × (builtin_ffs x ≡ k + 1) × IsLowest 32 x k)
unfolding builtin_ffs
builtin_ffs-cases x = elim (lowest_set-cases 32 x 0) [
  | inl none_set ↦ inl none_set
  | inr (k, at, low) ↦ inr (k, omega arith, low)
]
