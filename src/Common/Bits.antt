-- ===== src/Common/Bits.antt =====
-- The bits of a word, and the C operators & | ^ ~ on them.
mod Step
use Prim.Native.Nat.{
  ℕ, zero, suc, ◌+◌, ◌-◌, ◌*◌, ◌/◌, ◌%◌, ◌^◌, ◌≤◌, ◌<◌, bit_and, bit_or, bit_xor, bit_and-bitwise,
}
use mathlib.Core.Path.{◌≡◌, refl, sym, ap, ap₂, ◌∙◌}
use mathlib.Core.Bool.{Bool, true, false, not, ◌&&◌, ◌||◌}
use native.Mathlib.Nat.{pow-suc, one-le-pow}
use native.Mathlib.Omega.{arith}
use ext_nrf52_hw_models.Common.Tests.{ltb, ◌==◌, nonzero}
use Step.{bit_and_step, bit_or_step, bit_xor_step}

-- Bit i of x.
abbrev pub bit : ℕ → ℕ → Bool
bit x zero = x % 2 == 1
bit x (suc i) = bit (x / 2) i

abbrev pub differs : Bool → Bool → Bool
differs true b = not b
differs false b = b

pub bit-and : (i a b : ℕ) → bit (bit_and a b) i ≡ (bit a i && bit b i)
bit-and zero a b = ground (arith, bit_and_step a b)
bit-and (suc i) a b =
    let half : bit_and a b / 2 ≡ bit_and (a / 2) (b / 2) = omega (arith, bit_and_step a b) in
    rw half (bit-and i (a / 2) (b / 2))

pub bit-or : (i a b : ℕ) → bit (bit_or a b) i ≡ (bit a i || bit b i)
bit-or zero a b = ground (arith, bit_or_step a b)
bit-or (suc i) a b =
    let half : bit_or a b / 2 ≡ bit_or (a / 2) (b / 2) = omega (arith, bit_or_step a b) in
    rw half (bit-or i (a / 2) (b / 2))

pub bit-xor : (i a b : ℕ) → bit (bit_xor a b) i ≡ differs (bit a i) (bit b i)
bit-xor zero a b = ground (arith, bit_xor_step a b)
bit-xor (suc i) a b =
    let half : bit_xor a b / 2 ≡ bit_xor (a / 2) (b / 2) = omega (arith, bit_xor_step a b) in
    rw half (bit-xor i (a / 2) (b / 2))

pub bit-zero : (i : ℕ) → bit 0 i ≡ false
bit-zero zero = refl
bit-zero (suc i) = bit-zero i

-- 1 << k has bit k alone.
pub bit-pow : (i k : ℕ) → bit (2 ^ k) i ≡ (k == i)
bit-pow zero zero = refl
bit-pow zero (suc k) = ground (arith, pow-suc 2 k)
bit-pow (suc i) zero = ground (arith, bit-zero i)
bit-pow (suc i) (suc k) =
    let half : 2 ^ suc k / 2 ≡ 2 ^ k = omega (arith, pow-suc 2 k) in
    rw half (bit-pow i k ∙ ground arith)

-- ~x in a word of w bits.
pub bit-not : (i w x : ℕ) → i < w → x < 2 ^ w → bit (2 ^ w - 1 - x) i ≡ not (bit x i)
bit-not i zero x p q = absurd (omega arith)
bit-not zero (suc w) x p q = ground (arith, pow-suc 2 w)
bit-not (suc i) (suc w) x p q =
    let half : (2 ^ suc w - 1 - x) / 2 ≡ 2 ^ w - 1 - x / 2 = omega (arith, pow-suc 2 w) in
    rw half (bit-not i w (x / 2) (omega arith) (omega (arith, pow-suc 2 w)))

-- A word of w bits has none above.
pub bit_above : (i w x : ℕ) → w ≤ i → x < 2 ^ w → bit x i ≡ false
bit_above i zero x p q = let none_set : x ≡ 0 = omega arith in rw none_set (bit-zero i)
bit_above zero (suc w) x p q = absurd (omega arith)
bit_above (suc i) (suc w) x p q = bit_above i w (x / 2) (omega arith) (omega (arith, pow-suc 2 w))

bit_and-zero : (n a : ℕ) → a ≤ n → bit_and a 0 ≡ 0
bit_and-zero n zero p = refl
bit_and-zero zero (suc a) p = absurd (omega arith)
bit_and-zero (suc n) (suc a) p =
    omega (arith, bit_and_step (suc a) 0, bit_and-zero n (suc a / 2) (omega arith))

-- The test `x & (1 << k)`.
pub test_bit : (k x : ℕ) → nonzero (bit_and x (2 ^ k)) ≡ bit x k
test_bit zero x = ground (arith, bit_and_step x 1, bit_and-zero (x / 2) (x / 2))
test_bit (suc k) x =
    let half : 2 ^ suc k / 2 ≡ 2 ^ k = omega (arith, pow-suc 2 k) in
    let even : 2 ^ suc k % 2 ≡ 0 = omega (arith, pow-suc 2 k) in
    ground (arith, bit_and_step x (2 ^ suc k), half, even, test_bit k (x / 2))

pub bit_and-le : (n a b : ℕ) → a ≤ n → bit_and a b ≤ a
bit_and-le n zero b p = simp bit_and-bitwise (omega arith)
bit_and-le zero (suc a) b p = absurd (omega arith)
bit_and-le (suc n) (suc a) b p =
    omega (arith, bit_and_step (suc a) b, bit_and-le n (suc a / 2) (b / 2) (omega arith))

pub bit_or-lt : (w a b : ℕ) → a < 2 ^ w → b < 2 ^ w → bit_or a b < 2 ^ w
bit_or-lt zero a b p q =
    let a_none : a ≡ 0 = omega arith in
    let b_none : b ≡ 0 = omega arith in rw (a_none, b_none) (omega arith)
bit_or-lt (suc w) a b p q = omega (
  arith,
  bit_or_step a b,
  pow-suc 2 w,
  bit_or-lt w (a / 2) (b / 2) (omega (arith, pow-suc 2 w)) (omega (arith, pow-suc 2 w)),
)

pub bit_xor-lt : (w a b : ℕ) → a < 2 ^ w → b < 2 ^ w → bit_xor a b < 2 ^ w
bit_xor-lt zero a b p q =
    let a_none : a ≡ 0 = omega arith in
    let b_none : b ≡ 0 = omega arith in rw (a_none, b_none) (omega arith)
bit_xor-lt (suc w) a b p q = omega (
  arith,
  bit_xor_step a b,
  pow-suc 2 w,
  bit_xor-lt w (a / 2) (b / 2) (omega (arith, pow-suc 2 w)) (omega (arith, pow-suc 2 w)),
)

-- Two words of w bits with the same bits are equal.
pub eq_of_bits : (w x y : ℕ) → x < 2 ^ w → y < 2 ^ w → ((i : ℕ) → i < w → bit x i ≡ bit y i) → x ≡ y
eq_of_bits zero x y p q h = omega arith
eq_of_bits (suc w) x y p q h = ground (
  arith,
  h 0 (omega arith),
  eq_of_bits w (x / 2) (y / 2) (omega (arith, pow-suc 2 w)) (omega (arith, pow-suc 2 w))
      (λ i below. h (suc i) (omega arith)),
)

pub xor_comm : (w a b : ℕ) → a < 2 ^ w → b < 2 ^ w → bit_xor a b ≡ bit_xor b a
xor_comm w a b p q =
    eq_of_bits w _ _ (bit_xor-lt w a b p q) (bit_xor-lt w b a q p)
      (λ i below. ground (arith, bit-xor i a b, bit-xor i b a))

pub xor_assoc :
    (w a b c : ℕ)
    → a < 2 ^ w
    → b < 2 ^ w
    → c < 2 ^ w
    → bit_xor (bit_xor a b) c ≡ bit_xor a (bit_xor b c)
xor_assoc w a b c p q r =
    eq_of_bits w _ _ (bit_xor-lt w _ c (bit_xor-lt w a b p q) r)
      (bit_xor-lt w a _ p (bit_xor-lt w b c q r))
      (λ i below.
        ground (
          arith,
          bit-xor i (bit_xor a b) c,
          bit-xor i a b,
          bit-xor i a (bit_xor b c),
          bit-xor i b c,
        ))

pub xor_self : (w a : ℕ) → a < 2 ^ w → bit_xor a a ≡ 0
xor_self zero a p = let none_set : a ≡ 0 = omega arith in rw none_set refl
xor_self (suc w) a p =
    omega (arith, bit_xor_step a a, xor_self w (a / 2) (omega (arith, pow-suc 2 w)))

pub xor-zero : (w a : ℕ) → a < 2 ^ w → bit_xor a 0 ≡ a
xor-zero zero a p = let none_set : a ≡ 0 = omega arith in rw none_set refl
xor-zero (suc w) a p =
    omega (arith, bit_xor_step a 0, xor-zero w (a / 2) (omega (arith, pow-suc 2 w)))

-- Halving and the lowest bit of an exclusive or.
pub xor-half : (a b : ℕ) → bit_xor a b / 2 ≡ bit_xor (a / 2) (b / 2)
xor-half a b = omega (arith, bit_xor_step a b)

pub xor-low : (a b : ℕ) → bit_xor a b % 2 ≡ (a % 2 + b % 2) % 2
xor-low a b = omega (arith, bit_xor_step a b)

mask_fields : (k q r : ℕ) → r < 2 ^ k → bit_and (q * 2 ^ k + r) (2 ^ k - 1) ≡ r
mask_fields zero q r p =
    let empty : 2 ^ 0 - 1 ≡ 0 = omega arith in
    omega (arith, bit_and-zero (q * 2 ^ 0 + r) (q * 2 ^ 0 + r) (omega arith))
mask_fields (suc k) q r p =
    let twice : q * 2 ^ suc k ≡ 2 * (q * 2 ^ k) =
      omega (arith, ap (λ (t : ℕ). q * t) (pow-suc 2 k)) in
    let rest : (q * 2 ^ suc k + r) / 2 ≡ q * 2 ^ k + r / 2 = omega arith in
    let half : (2 ^ suc k - 1) / 2 ≡ 2 ^ k - 1 = omega (arith, pow-suc 2 k, one-le-pow k 2) in
    ground (
      arith,
      bit_and_step (q * 2 ^ suc k + r) (2 ^ suc k - 1),
      rest,
      half,
      pow-suc 2 k,
      one-le-pow k 2,
      mask_fields k q (r / 2) (omega (arith, pow-suc 2 k)),
    )

-- A mask of k ones is the remainder by 2 ^ k.
pub mask_low : (k a : ℕ) → bit_and a (2 ^ k - 1) ≡ a % 2 ^ k
mask_low k a = ground (arith, one-le-pow k 2, mask_fields k (a / 2 ^ k) (a % 2 ^ k))

or-zero : (n a : ℕ) → a ≤ n → bit_or a 0 ≡ a
or-zero n zero p = refl
or-zero zero (suc a) p = absurd (omega arith)
or-zero (suc n) (suc a) p =
    omega (arith, bit_or_step (suc a) 0, or-zero n (suc a / 2) (omega arith))

-- `q << k | r` is a sum where r has k bits.
pub or_fields : (k q r : ℕ) → r < 2 ^ k → bit_or (q * 2 ^ k) r ≡ q * 2 ^ k + r
or_fields zero q r p =
    let none_set : r ≡ 0 = omega arith in
    rw none_set (or-zero (q * 2 ^ 0) (q * 2 ^ 0) (omega arith) ∙ omega arith)
or_fields (suc k) q r p =
    let twice : q * 2 ^ suc k ≡ 2 * (q * 2 ^ k) =
      omega (arith, ap (λ (t : ℕ). q * t) (pow-suc 2 k)) in
    let rest : q * 2 ^ suc k / 2 ≡ q * 2 ^ k = omega arith in
    ground (
      arith,
      bit_or_step (q * 2 ^ suc k) r,
      rest,
      pow-suc 2 k,
      or_fields k q (r / 2) (omega (arith, pow-suc 2 k)),
    )

-- `q << k ^ r` is a sum where r has k bits.
pub xor_fields : (k w q r : ℕ) → q < 2 ^ w → r < 2 ^ k → bit_xor (q * 2 ^ k) r ≡ q * 2 ^ k + r
xor_fields zero w q r p h =
    let none_set : r ≡ 0 = omega arith in
    let same : q * 2 ^ 0 ≡ q = omega arith in rw (none_set, same) (xor-zero w q p ∙ omega arith)
xor_fields (suc k) w q r p h =
    let twice : q * 2 ^ suc k ≡ 2 * (q * 2 ^ k) =
      omega (arith, ap (λ (t : ℕ). q * t) (pow-suc 2 k)) in
    let rest : q * 2 ^ suc k / 2 ≡ q * 2 ^ k = omega arith in
    ground (
      arith,
      bit_xor_step (q * 2 ^ suc k) r,
      rest,
      pow-suc 2 k,
      xor_fields k w q (r / 2) p (omega (arith, pow-suc 2 k)),
    )

pub xor-byte : (a b : ℕ) → bit_xor a b / 256 ≡ bit_xor (a / 256) (b / 256)
xor-byte a b =
    let wide : (x : ℕ) → x / 2 / 2 / 2 / 2 / 2 / 2 / 2 / 2 ≡ x / 256 = λ x. omega arith in
    sym (wide (bit_xor a b)) ∙ simp xor-half (ap₂ bit_xor (wide a) (wide b))
