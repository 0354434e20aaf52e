-- ===== src/Common/Loops.antt =====
-- The counted loop `for (k = i; k < i + n; k++)`.
use Prim.Native.Nat.{ℕ, zero, suc, ◌+◌, ◌<◌}
use mathlib.Core.Path.{◌≡◌, refl}
use mathlib.Core.Logic.{◌↔◌, inl, inr}
use mathlib.Core.Bool.{Bool, true, false}
use native.Mathlib.Omega.{arith}
use ext_nrf52_hw_models.Common.Tests.{ltb, if◌then◌else◌, Bool-cases, ltb→lt, ltb→le}

module _ {ℓ} {S : Type ℓ} where
  unfoldable pub for_range : (count from : ℕ) → (round : ℕ → S → S) → S → S
  for_range zero from round state = state
  for_range (suc count) from round state = for_range count (from + 1) round (round from state)

  -- A property of the state and the next index is carried from start to end.
  pub for_range_inv {κ} :
      (P : ℕ → S → Type κ) (round : ℕ → S → S)
      → ((k : ℕ) (state : S) → P k state → P (k + 1) (round k state))
      → (count from end : ℕ) (state : S) → from + count ≡ end
      → P from state
      → P end (for_range count from round state)
  unfolding for_range
  for_range_inv P round keep zero from end state e h =
      let here : from ≡ end = omega arith in rw (← here) h
  for_range_inv P round keep (suc count) from end state e h =
      for_range_inv P round keep count (from + 1) end (round from state) (omega arith)
        (keep from state h)

-- One of the first n indices passes the test.
abbrev pub Passes : (ℕ → Bool) → ℕ → Type 0
Passes test n = (i : ℕ) × (i < n) × (test i ≡ true)

pub Passes-step :
    (test : ℕ → Bool) (k : ℕ) (found : Bool)
    → (found ≡ true) ↔ Passes test k
    → ((if test k then true else found) ≡ true) ↔ Passes test (k + 1)
Passes-step test k found h = elim (Bool-cases (test k)) [
  | inl here ↦ rw here (λ r. (k, omega arith, here), λ p. refl)
  | inr not_here ↦ rw not_here (
    λ r. let p = h.0 r in (p.0, omega (arith, p.1), p.2),
    λ p. elim (Bool-cases (ltb p.0 k)) [
      | inl old ↦ h.1 (p.0, ltb→lt _ _ old, p.2)
      | inr new ↦
          let same : p.0 ≡ k = omega (arith, ltb→le _ _ new, p.1) in
          let passes : test k ≡ true = rw same at p.2 in absurd (ground arith)
    ],
  )
]

-- The loop `for (i = 0; i < n; i++) if (test(i)) found = true;`.
pub for_range_any :
    (test : ℕ → Bool) (n : ℕ)
    → (for_range n 0 (λ i found. if test i then true else found) false ≡ true) ↔ Passes test n
for_range_any test n =
    for_range_inv (λ k found. (found ≡ true) ↔ Passes test k)
      (λ i found. if test i then true else found) (Passes-step test) n 0 n false (omega arith)
      (λ r. absurd (ground arith), λ p. absurd (omega (arith, p.1)))
