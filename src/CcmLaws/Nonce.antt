-- ===== src/CcmLaws/Nonce.antt =====
-- nonce_calc of src/HW_models/NRF_AES_CCM.c.
use ext_nrf52_hw_models.Common.{
  ℕ, ◌+◌, ◌*◌, ◌/◌, ◌%◌, ◌^◌, ◌<◌, ◌≡◌, sym, ◌∙◌, ap, ◌==◌, if◌then◌else◌, arith,
}
use ext_nrf52_hw_models.Ccm.{nonce_calc}

words :
    (a b x y : ℕ)
    → a < 2 ^ 39
    → b < 2 ^ 39
    → x < 2
    → y < 2
    → a % 2 ^ 8 ≡ b % 2 ^ 8
    → a / 2 ^ 8 % 2 ^ 8 ≡ b / 2 ^ 8 % 2 ^ 8
    → a / 2 ^ 16 % 2 ^ 8 ≡ b / 2 ^ 16 % 2 ^ 8
    → a / 2 ^ 24 % 2 ^ 8 ≡ b / 2 ^ 24 % 2 ^ 8
    → a / 2 ^ 32 % 2 ^ 7 + x * 128 ≡ b / 2 ^ 32 % 2 ^ 7 + y * 128
    → (a ≡ b) × (x ≡ y)
words a b x y p q r s e0 e1 e2 e3 e4 =
    let xy : x ≡ y = omega (arith, e4, r, s) in
    let top : a / 2 ^ 32 ≡ b / 2 ^ 32 = omega (arith, e4, xy, p, q) in
    let w3 : a / 2 ^ 24 ≡ b / 2 ^ 24 = omega (arith, top, e3) in
    let w2 : a / 2 ^ 16 ≡ b / 2 ^ 16 = omega (arith, w3, e2) in
    let w1 : a / 2 ^ 8 ≡ b / 2 ^ 8 = omega (arith, w2, e1) in
    let w0 : a ≡ b = omega (arith, w1, e0) in (w0, xy)

-- Two nonces of 13 bytes that are the same have the same counter of 39 bits and the same direction, whatever
-- the initialisation vectors.
pub nonce_calc-injective :
    (iv other_iv : ℕ → ℕ) (a b x y : ℕ)
    → a < 2 ^ 39
    → b < 2 ^ 39
    → x < 2
    → y < 2
    → ((i : ℕ) → i < 13 → nonce_calc iv a x i ≡ nonce_calc other_iv b y i)
    → (a ≡ b) × (x ≡ y)
unfolding nonce_calc
nonce_calc-injective iv other_iv a b x y p q r s same =
    let flag : (c : ℕ) → c < 2 → (if c == 1 then 128 else 0) ≡ c * 128 = λ c h. ground arith in
    let fx = flag x r in
    let fy = flag y s in
    let e0 = same 0 (omega arith) in
    let e1 = same 1 (omega arith) in
    let e2 = same 2 (omega arith) in
    let e3 = same 3 (omega arith) in
    let e4 = same 4 (omega arith) in
    words a b x y p q r s (omega (arith, e0)) (omega (arith, e1)) (omega (arith, e2))
      (omega (arith, e3))
      (ap (λ t. a / 2 ^ 32 % 2 ^ 7 + t) (sym fx) ∙ e4 ∙ ap (λ t. b / 2 ^ 32 % 2 ^ 7 + t) fy)
