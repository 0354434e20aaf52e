-- ===== src/AarLaws.antt =====
-- The resolution of src/HW_models/NRF_AAR.c, and the time that it takes.
use ext_nrf52_hw_models.Common.{
  ℕ, zero, suc, ◌+◌, ◌*◌, ◌/◌, ◌^◌, ◌<◌, ◌≤◌, ◌≡◌, refl, ◌≢◌, ◌⊎◌, inl, inr, false, ◌==◌, ==_iff,
  Bool-cases, arith, none, some,
}
use ext_nrf52_hw_models.Soc.{Soc}
use ext_nrf52_hw_models.Soc.Env.{Env}
use ext_nrf52_hw_models.Aar.{Resolution, hash_check, resolve_from, address_bytes, nrf_aar_resolve}

not_equal : (a b : ℕ) → (a == b) ≡ false → a ≢ b
not_equal a b h e = ground arith

from_one_earlier :
    (P : ℕ → Type 0) (i k : ℕ)
    → P i
    → ((j : ℕ) → i + 1 ≤ j → j < k → P j)
    → (j : ℕ) → i ≤ j
    → j < k
    → P j
from_one_earlier P i k here later j from below = elim (Bool-cases (i == j)) [
  | inl same ↦ let e = (==_iff i j).0 same in rw (← e) here
  | inr other ↦ let different : i ≢ j = not_equal i j other in later j (omega arith) below
]

module _ ⦃env : Env⦄ where
  -- Does key i of the table resolve the address?
  abbrev pub Matches : Soc → ℕ → Type 0
  Matches s i = address_bytes 0 s ≡ hash_check (address_bytes 3 s) (s.aar.irkptr + 16 * i) s

  -- The first key from a to b that matches, and the keys tried for it; or that none does.
  abbrev pub IsFirstMatch : Soc → (a b : ℕ) → Resolution → Type 0
  IsFirstMatch s a b r =
      ((i : ℕ) × (r.good_irk ≡ some i)
        × (r.n_irks ≡ i + 1)
        × (a ≤ i)
        × (i < b)
        × Matches s i
        × ((j : ℕ) → a ≤ j → j < i → ¬ Matches s j))
      ⊎ ((r.good_irk ≡ none) × (r.n_irks ≡ b) × ((j : ℕ) → a ≤ j → j < b → ¬ Matches s j))

  resolve_from-IsFirstMatch :
      (s : Soc) (left i b : ℕ)
      → i + left ≡ b
      → IsFirstMatch s i b (resolve_from (address_bytes 3 s) (address_bytes 0 s) s left i)
  unfolding resolve_from
  resolve_from-IsFirstMatch s zero i b e =
      inr (refl, omega arith, λ j above below. absurd (omega arith))
  resolve_from-IsFirstMatch s (suc left) i b e =
      let prand = address_bytes 3 s in
      let hash = address_bytes 0 s in
      elim (Bool-cases (hash == hash_check prand (s.aar.irkptr + 16 * i) s)) [
        | inl here ↦ rw here (
            inl (
              i,
              refl,
              refl,
              omega arith,
              omega arith,
              (==_iff _ _).0 here,
              λ j above below. absurd (omega arith),
            ))
        | inr other ↦
            let not_here : ¬ Matches s i = not_equal _ _ other in
            rw other (elim (resolve_from-IsFirstMatch s left (i + 1) b (omega arith)) [
              | inl (k, good, tried, from, below, matches, before) ↦ inl (
                k,
                good,
                tried,
                omega (arith, from),
                below,
                matches,
                from_one_earlier (λ j. ¬ Matches s j) i k not_here before,
              )
              | inr (failed, tried, before) ↦
                  inr (failed, tried, from_one_earlier (λ j. ¬ Matches s j) i b not_here before)
            ])
      ]

  -- The resolution of an address: where its 24 high bits do not begin with 01 no key resolves it, and NIRK
  -- counts as tried; otherwise the result is the first of the NIRK keys under which the cipher of the high
  -- part gives the low part, and one more than its index as tried, or none, and all of them as tried.
  pub aar_resolve_lem :
      (s : Soc)
      → let prand = address_bytes 3 s in
        (prand / 2 ^ 22 ≢ 1
          → (nrf_aar_resolve s).good_irk ≡ none × ((nrf_aar_resolve s).n_irks ≡ s.aar.nirk))
        × (prand / 2 ^ 22 ≡ 1 → IsFirstMatch s 0 s.aar.nirk (nrf_aar_resolve s))
  unfolding nrf_aar_resolve
  aar_resolve_lem s =
      let prand = address_bytes 3 s in
      (
        λ wrong. let test : (prand / 2 ^ 22 == 1) ≡ false = ground arith in rw test (refl, refl),
        λ right.
            rw ((==_iff _ 1).1 right)
              (resolve_from-IsFirstMatch s s.aar.nirk 0 s.aar.nirk (omega arith)),
      )
