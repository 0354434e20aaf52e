-- ===== src/CrcLaws/Division.antt =====
-- Polynomial division over the bits, the lowest first: what the lookup tables of
-- src/HW_models/crc.c are generated from, and that a table-driven step does the same.
use ext_nrf52_hw_models.Common.{
  ℕ, zero, suc, ◌+◌, ◌*◌, ◌/◌, ◌%◌, ◌^◌, ◌≤◌, ◌<◌, bit_xor, ◌≡◌, refl, sym, ◌∙◌, ap, true, ◌==◌,
  ==_iff, if◌then◌else◌, all_below, all_below_sound, get_or, arith,
}
use native.Mathlib.Nat.{pow-suc}
use ext_nrf52_hw_models.Common.Bits.{
  mask_low, xor-half, xor-low, xor-zero, xor_comm, xor_assoc, xor_self, xor_fields, bit-xor,
  bit_xor-lt, eq_of_bits, xor-byte,
}
use ext_nrf52_hw_models.Crc.{
  crc_table_24_ble, crc_byte_ble, crc_loop_ble, crc_update_ble, crc_table_154, crc_byte_154,
  crc_loop_154, crc_update_154,
}

-- One bit of the division by the polynomial.
unfoldable pub divide_bit : ℕ → ℕ → ℕ
divide_bit poly c = if c % 2 == 1 then bit_xor (c / 2) poly else c / 2

unfoldable pub divide_bits : ℕ → ℕ → ℕ → ℕ
divide_bits zero poly c = c
divide_bits (suc n) poly c = divide_bits n poly (divide_bit poly c)

-- One byte of the message is added and divided.
unfoldable pub divide_byte : ℕ → ℕ → ℕ → ℕ
divide_byte poly crc d = divide_bits 8 poly (bit_xor crc d)

-- The bytes of the message from index i, n of them.
unfoldable pub divide : ℕ → ℕ → ℕ → (ℕ → ℕ) → ℕ → ℕ
divide poly zero crc message i = crc
divide poly (suc n) crc message i = divide poly n (divide_byte poly crc (message i)) message (i + 1)

divide_bits-shift : (n poly q : ℕ) → divide_bits n poly (q * 2 ^ n) ≡ q
unfolding divide_bits divide_bit
divide_bits-shift zero poly q = omega arith
divide_bits-shift (suc n) poly q =
    let twice : q * 2 ^ suc n ≡ 2 * (q * 2 ^ n) =
      omega (arith, ap (λ (t : ℕ). q * t) (pow-suc 2 n)) in
    let even : divide_bit poly (q * 2 ^ suc n) ≡ q * 2 ^ n = ground arith in
    rw even (divide_bits-shift n poly q)

module _ (w poly : ℕ) (fits : poly < 2 ^ w) where
  divide_bit-lt : (c : ℕ) → c < 2 ^ w → divide_bit poly c < 2 ^ w
  unfolding divide_bit
  divide_bit-lt c h = ground (arith, bit_xor-lt w (c / 2) poly (omega arith) fits)

  pub divide_bits-lt : (n c : ℕ) → c < 2 ^ w → divide_bits n poly c < 2 ^ w
  unfolding divide_bits
  divide_bits-lt zero c h = h
  divide_bits-lt (suc n) c h = divide_bits-lt n (divide_bit poly c) (divide_bit-lt c h)

  -- The division is linear.
  divide_bit-xor :
      (a b : ℕ)
      → a < 2 ^ w
      → b < 2 ^ w
      → divide_bit poly (bit_xor a b) ≡ bit_xor (divide_bit poly a) (divide_bit poly b)
  divide_bit-xor a b p q =
      eq_of_bits w _ _ (divide_bit-lt _ (bit_xor-lt w a b p q))
        (bit_xor-lt w _ _ (divide_bit-lt a p) (divide_bit-lt b q))
        (λ i below.
          unfold divide_bit in
          ground (
            arith,
            xor-half a b,
            xor-low a b,
            bit-xor i (bit_xor (a / 2) (b / 2)) poly,
            bit-xor i (a / 2) (b / 2),
            bit-xor i (divide_bit poly a) (divide_bit poly b),
            bit-xor i (a / 2) poly,
            bit-xor i (b / 2) poly,
          ))

  divide_bits-xor :
      (n a b : ℕ)
      → a < 2 ^ w
      → b < 2 ^ w
      → divide_bits n poly (bit_xor a b) ≡ bit_xor (divide_bits n poly a) (divide_bits n poly b)
  unfolding divide_bits
  divide_bits-xor zero a b p q = refl
  divide_bits-xor (suc n) a b p q = rw (divide_bit-xor a b p q) (
      divide_bits-xor n (divide_bit poly a) (divide_bit poly b) (divide_bit-lt a p)
        (divide_bit-lt b q))

  divide_bits-split :
      (x : ℕ)
      → x < 2 ^ w
      → 256 ≤ 2 ^ w
      → divide_bits 8 poly x ≡ bit_xor (divide_bits 8 poly (x % 256)) (x / 256)
  divide_bits-split x h wide =
      let whole : bit_xor (x / 256 * 2 ^ 8) (x % 256) ≡ x =
        xor_fields 8 w (x / 256) (x % 256) (omega arith) (omega arith) ∙ omega arith in
      let linear = divide_bits-xor 8 (x / 256 * 2 ^ 8) (x % 256) (omega arith) (omega arith) in
      let low = divide_bits-lt 8 (x % 256) (omega arith) in
      ap (divide_bits 8 poly) (sym whole)
      ∙ linear
      ∙ ap (λ (t : ℕ). bit_xor t (divide_bits 8 poly (x % 256)))
          (divide_bits-shift 8 poly (x / 256))
      ∙ xor_comm w _ _ (omega arith) low

  -- What one look-up computes, when the table holds the division of each byte.
  pub divide_byte-table :
      (c d : ℕ)
      → c < 2 ^ w
      → d < 256
      → 256 ≤ 2 ^ w
      → divide_byte poly c d ≡ bit_xor (divide_bits 8 poly (bit_xor c d % 256)) (c / 256)
  unfolding divide_byte
  divide_byte-table c d hc hd wide =
      let none_set : d / 256 ≡ 0 = omega arith in
      let rest : bit_xor c d / 256 ≡ c / 256 =
        xor-byte c d ∙ ap (bit_xor (c / 256)) none_set ∙ xor-zero w (c / 256) (omega arith) in
      divide_bits-split (bit_xor c d) (bit_xor-lt w c d hc (omega arith)) wide
      ∙ ap (bit_xor (divide_bits 8 poly (bit_xor c d % 256))) rest

  pub divide_byte-lt : (c d : ℕ) → c < 2 ^ w → d < 2 ^ w → divide_byte poly c d < 2 ^ w
  unfolding divide_byte
  divide_byte-lt c d hc hd = divide_bits-lt 8 (bit_xor c d) (bit_xor-lt w c d hc hd)

  -- A byte that equals the low byte of the remainder cancels it.
  pub divide_byte_cancel :
      (c : ℕ) → c < 2 ^ w → 256 ≤ 2 ^ w → divide_byte poly c (c % 256) ≡ c / 256
  unfolding divide_byte
  divide_byte_cancel c hc wide =
      let whole : bit_xor (c / 256 * 2 ^ 8) (c % 256) ≡ c =
        xor_fields 8 w (c / 256) (c % 256) (omega arith) (omega arith) ∙ omega arith in
      let cancelled : bit_xor c (c % 256) ≡ c / 256 * 2 ^ 8 =
        ap (λ (t : ℕ). bit_xor t (c % 256)) (sym whole)
        ∙ xor_assoc w (c / 256 * 2 ^ 8) (c % 256) (c % 256) (omega arith) (omega arith)
            (omega arith)
        ∙ ap (bit_xor (c / 256 * 2 ^ 8)) (xor_self w (c % 256) (omega arith))
        ∙ xor-zero w (c / 256 * 2 ^ 8) (omega arith) in
      ap (divide_bits 8 poly) cancelled ∙ divide_bits-shift 8 poly (c / 256)

abbrev pub ble_poly : ℕ
ble_poly = 0xda_6000

abbrev pub ieee_poly : ℕ
ieee_poly = 0x8408

ble_table : all_below 256 (λ i. get_or crc_table_24_ble i 0 == divide_bits 8 ble_poly i) ≡ true
unfolding all_below crc_table_24_ble divide_bits divide_bit
ble_table = refl

ieee_table : all_below 256 (λ i. get_or crc_table_154 i 0 == divide_bits 8 ieee_poly i) ≡ true
unfolding all_below crc_table_154 divide_bits divide_bit
ieee_table = refl

pub crc_byte_ble-divide_byte :
    (c d : ℕ) → c < 2 ^ 24 → d < 256 → crc_byte_ble c d ≡ divide_byte ble_poly c d
unfolding crc_byte_ble
crc_byte_ble-divide_byte c d hc hd =
    let entry =
      (==_iff _ _).0 (all_below_sound 256 _ (bit_xor c d % 256) ble_table (omega arith)) in
    let small = divide_byte-lt 24 ble_poly (omega arith) c d hc (omega arith) in
    let looked_up = divide_byte-table 24 ble_poly (omega arith) c d hc hd (omega arith) in
    rw (mask_low 8 (bit_xor c d), mask_low 24 _) (ground (arith, entry, small, looked_up))

crc_loop_ble-divide :
    (n c i : ℕ) (message : ℕ → ℕ)
    → c < 2 ^ 24
    → ((j : ℕ) → message j < 256)
    → (crc_loop_ble n c message i ≡ divide ble_poly n c message i)
      × (divide ble_poly n c message i < 2 ^ 24)
unfolding crc_loop_ble divide
crc_loop_ble-divide zero c i message hc bytes = (refl, hc)
crc_loop_ble-divide (suc n) c i message hc bytes =
    rw (crc_byte_ble-divide_byte c (message i) hc (bytes i)) (
      crc_loop_ble-divide n (divide_byte ble_poly c (message i)) (i + 1) message
        (divide_byte-lt 24 ble_poly (omega arith) c (message i) hc
          (let small = bytes i in omega arith))
        bytes)

-- For a remainder of 24 bits and a message of bytes, crc_update_ble is the division of the message,
-- bit by bit, by the reflected Bluetooth LE polynomial, and its result has 24 bits.
pub crc_update_ble-divide :
    (crc n : ℕ) (message : ℕ → ℕ)
    → crc < 2 ^ 24
    → ((j : ℕ) → message j < 256)
    → (crc_update_ble crc message n ≡ divide ble_poly n crc message 0)
      × (crc_update_ble crc message n < 2 ^ 24)
unfolding crc_update_ble
crc_update_ble-divide crc n message h bytes =
    let same = crc_loop_ble-divide n crc 0 message h bytes in
    rw (mask_low 24 _) (ground (arith, same))

pub crc_byte_154-divide_byte :
    (c d : ℕ) → c < 2 ^ 16 → d < 256 → crc_byte_154 c d ≡ divide_byte ieee_poly c d
unfolding crc_byte_154
crc_byte_154-divide_byte c d hc hd =
    let entry =
      (==_iff _ _).0 (all_below_sound 256 _ (bit_xor c d % 256) ieee_table (omega arith)) in
    let small = divide_byte-lt 16 ieee_poly (omega arith) c d hc (omega arith) in
    let looked_up = divide_byte-table 16 ieee_poly (omega arith) c d hc hd (omega arith) in
    rw (mask_low 8 (bit_xor c d), mask_low 16 _) (ground (arith, entry, small, looked_up))

crc_loop_154-divide :
    (n c i : ℕ) (message : ℕ → ℕ)
    → c < 2 ^ 16
    → ((j : ℕ) → message j < 256)
    → (crc_loop_154 n c message i ≡ divide ieee_poly n c message i)
      × (divide ieee_poly n c message i < 2 ^ 16)
unfolding crc_loop_154 divide
crc_loop_154-divide zero c i message hc bytes = (refl, hc)
crc_loop_154-divide (suc n) c i message hc bytes =
    rw (crc_byte_154-divide_byte c (message i) hc (bytes i)) (
      crc_loop_154-divide n (divide_byte ieee_poly c (message i)) (i + 1) message
        (divide_byte-lt 16 ieee_poly (omega arith) c (message i) hc
          (let small = bytes i in omega arith))
        bytes)

-- For a remainder of 16 bits and a message of bytes, crc_update_154 is the division of the message,
-- bit by bit, by the reflected IEEE 802.15.4 polynomial, and its result has 16 bits.
pub crc_update_154-divide :
    (crc n : ℕ) (message : ℕ → ℕ)
    → crc < 2 ^ 16
    → ((j : ℕ) → message j < 256)
    → (crc_update_154 crc message n ≡ divide ieee_poly n crc message 0)
      × (crc_update_154 crc message n < 2 ^ 16)
unfolding crc_update_154
crc_update_154-divide crc n message h bytes =
    let same = crc_loop_154-divide n crc 0 message h bytes in
    rw (mask_low 16 _) (ground (arith, same))
