-- ===== src/Common/Bits/Step.antt =====
-- The native bit operations, one binary digit at a time.
use Prim.Native.Nat.{
  ℕ, zero, suc, ◌+◌, ◌-◌, ◌*◌, ◌/◌, ◌%◌, ◌≤◌, ◌<◌, min, max, digits, bitwise, differ,
}
use Prim.Native.Nat.{bit_and, bit_or, bit_xor, bit_and-bitwise, bit_or-bitwise, bit_xor-bitwise}
use mathlib.Core.Path.{◌≡◌, refl, sym, ap, ◌∙◌}
use native.Mathlib.Omega.{arith}

module _ (rest : ℕ → ℕ) (digit : ℕ → ℕ → ℕ) where
  -- A round of fuel beyond the number itself is not used.
  digits_spare :
      (fuel x y : ℕ) → x ≤ fuel → digits rest digit (fuel + 1) x y ≡ digits rest digit fuel x y
  digits_spare zero x y h = let none : x ≡ zero = omega arith in rw none refl
  digits_spare (suc fuel) zero y h =
      let more : suc fuel + 1 ≡ suc (fuel + 1) = omega arith in rw more refl
  digits_spare (suc fuel) (suc x) y h =
      let more : suc fuel + 1 ≡ suc (fuel + 1) = omega arith in
      rw more (
        ap (λ (t : ℕ). t * 2 + digit (suc x % 2) (y % 2))
          (digits_spare fuel (suc x / 2) (y / 2) (omega arith)))

  digits_padded : (pad x y : ℕ) → digits rest digit (x + pad) x y ≡ digits rest digit x x y
  digits_padded zero x y = let same : x + zero ≡ x = omega arith in rw same
  digits_padded (suc pad) x y =
      let next : x + suc pad ≡ x + pad + 1 = omega arith in
      rw next (digits_spare (x + pad) x y (omega arith) ∙ digits_padded pad x y)

  lowest_digit :
      (x y : ℕ)
      → bitwise rest digit (suc x) y
        ≡ bitwise rest digit (suc x / 2) (y / 2) * 2 + digit (suc x % 2) (y % 2)
  lowest_digit x y =
      let half = suc x / 2 in
      let fuel : half + (x - half) ≡ x = omega arith in
      let enough : digits rest digit x half (y / 2) ≡ digits rest digit half half (y / 2) =
        ap (λ (t : ℕ). digits rest digit t half (y / 2)) (sym fuel)
        ∙ digits_padded (x - half) half (y / 2) in
      ap (λ (t : ℕ). t * 2 + digit (suc x % 2) (y % 2)) enough

pub bit_and_step : (x y : ℕ) → bit_and x y ≡ bit_and (x / 2) (y / 2) * 2 + min (x % 2) (y % 2)
bit_and_step zero y = simp bit_and-bitwise (omega arith)
bit_and_step (suc x) y = simp bit_and-bitwise (lowest_digit (λ r. 0) min x y)

pub bit_or_step : (x y : ℕ) → bit_or x y ≡ bit_or (x / 2) (y / 2) * 2 + max (x % 2) (y % 2)
bit_or_step zero y = simp bit_or-bitwise (omega arith)
bit_or_step (suc x) y = simp bit_or-bitwise (lowest_digit (λ r. r) max x y)

differ-digit : (x y : ℕ) → x < 2 → y < 2 → differ x y ≡ (x + y) % 2
differ-digit zero y p q = omega arith
differ-digit (suc zero) zero p q = refl
differ-digit (suc zero) (suc zero) p q = refl
differ-digit (suc zero) (suc (suc y)) p q = absurd (omega arith)
differ-digit (suc (suc x)) y p q = absurd (omega arith)

pub bit_xor_step : (x y : ℕ) → bit_xor x y ≡ bit_xor (x / 2) (y / 2) * 2 + (x % 2 + y % 2) % 2
bit_xor_step zero y = simp bit_xor-bitwise (omega arith)
bit_xor_step (suc x) y =
    rw (← differ-digit (suc x % 2) (y % 2) (omega arith) (omega arith))
      (simp bit_xor-bitwise (lowest_digit (λ r. r) differ x y))
