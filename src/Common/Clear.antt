-- ===== src/Common/Clear.antt =====
-- The bits of `x & ~y`, of `x | 1 << k` and of `x & ~(1 << k)`.
use ext_nrf52_hw_models.Common.Tests.{ltb, ◌==◌, Bool-cases, ltb→lt, ltb→le}
use ext_nrf52_hw_models.Common.Words.{clear32, clear64}
use ext_nrf52_hw_models.Common.Bits.{bit, bit-and, bit-or, bit-not, bit-pow, bit_above, bit_and-le}
use Prim.Native.Nat.{ℕ, suc, ◌-◌, ◌^◌, ◌≤◌, ◌<◌, bit_and, bit_or}
use mathlib.Core.Path.{◌≡◌}
use mathlib.Core.Logic.{inl, inr}
use mathlib.Core.Bool.{not, ◌&&◌, ◌||◌}
use native.Mathlib.Nat.{le_refl, pow-le-pow_right, pow-suc, one-le-pow}
use native.Mathlib.Omega.{arith}

bit-clear :
    (w i x y : ℕ)
    → x < 2 ^ w
    → y < 2 ^ w
    → bit (bit_and x (2 ^ w - 1 - y)) i ≡ (bit x i && not (bit y i))
bit-clear w i x y hx hy = elim (Bool-cases (ltb i w)) [
  | inl inside ↦ ground (arith, bit-and i x (2 ^ w - 1 - y), bit-not i w y (ltb→lt i w inside) hy)
  | inr above ↦ ground (arith, bit-and i x (2 ^ w - 1 - y), bit_above i w x (ltb→le i w above) hx)
]

pub bit-clear64 :
    (i x y : ℕ) → x < 2 ^ 64 → y < 2 ^ 64 → bit (clear64 x y) i ≡ (bit x i && not (bit y i))
bit-clear64 i x y hx hy = bit-clear 64 i x y hx hy

pub bit-clear32 :
    (i x y : ℕ) → x < 2 ^ 32 → y < 2 ^ 32 → bit (clear32 x y) i ≡ (bit x i && not (bit y i))
bit-clear32 i x y hx hy = bit-clear 32 i x y hx hy

pub clear64-le : (x y : ℕ) → clear64 x y ≤ x
clear64-le x y = bit_and-le x x (2 ^ 64 - 1 - y) (le_refl x)

pub clear32-le : (x y : ℕ) → clear32 x y ≤ x
clear32-le x y = bit_and-le x x (2 ^ 32 - 1 - y) (le_refl x)

-- One bit set, and one bit cleared.
pub bit-set : (k i x : ℕ) → bit (bit_or x (2 ^ k)) i ≡ (bit x i || k == i)
bit-set k i x = ground (arith, bit-or i x (2 ^ k), bit-pow i k)

pub pow-lt : (k w : ℕ) → k < w → 2 ^ k < 2 ^ w
pow-lt k w h =
    let upto : 2 ^ suc k ≤ 2 ^ w = pow-le-pow_right (omega arith) h in
    omega (arith, pow-suc 2 k, one-le-pow k 2, upto)

pub bit-clear_one :
    (k i x : ℕ) → k < 64 → x < 2 ^ 64 → bit (clear64 x (2 ^ k)) i ≡ (bit x i && not (k == i))
bit-clear_one k i x hk hx = ground (arith, bit-clear64 i x (2 ^ k) hx (pow-lt k 64 hk), bit-pow i k)
