-- ===== src/CrcLaws/Reverse.antt =====
-- rev_byte, rev_24 and rev_16 of src/HW_models/crc.c reverse the order of the bits.
use ext_nrf52_hw_models.Common.{
  ℕ, zero, suc, ◌+◌, ◌*◌, ◌/◌, ◌%◌, ◌^◌, ◌<◌, bit_and, bit_or, ◌≡◌, refl, ap₂, true, ◌&&◌, ltb,
  ◌==◌, all_below, all_below_sound, arith,
}
use ext_nrf52_hw_models.Common.Bits.{mask_low, or_fields}
use ext_nrf52_hw_models.Crc.{rev_byte, rev_24, rev_16}

-- The w low bits of x, the lowest first, behind those of acc.
pub mirror : ℕ → ℕ → ℕ → ℕ
mirror zero x acc = acc
mirror (suc w) x acc = mirror w (x / 2) (acc * 2 + x % 2)

rev_byte_table :
    all_below 256
      (λ x. (rev_byte x == mirror 8 x 0) && ltb (rev_byte x) 256 && rev_byte (rev_byte x) == x)
    ≡ true
unfolding all_below rev_byte mirror
rev_byte_table = refl

record IsReversed (x : ℕ) : Type 0 where
  mirrored : rev_byte x ≡ mirror 8 x 0
  small : rev_byte x < 256
  undone : rev_byte (rev_byte x) ≡ x

rev_byte-IsReversed : (x : ℕ) → x < 256 → IsReversed x
rev_byte-IsReversed x h = ground (arith, all_below_sound 256 _ x rev_byte_table h)

-- Three bytes side by side.
or_bytes :
    (a b c : ℕ)
    → b < 256
    → c < 256
    → bit_or (bit_or (a * 2 ^ 16) (b * 2 ^ 8)) c ≡ a * 65536 + b * 256 + c
or_bytes a b c hb hc =
    let upper : bit_or (a * 2 ^ 16) (b * 2 ^ 8) ≡ (a * 256 + b) * 2 ^ 8 =
      omega (arith, or_fields 16 a (b * 2 ^ 8) (omega arith)) in
    rw upper (omega (arith, or_fields 8 (a * 256 + b) c (omega arith)))

rev_24_as_sum :
    (x : ℕ)
    → x < 2 ^ 24
    → rev_24 x ≡ rev_byte (x % 256) * 65536 + rev_byte (x / 256 % 256) * 256 + rev_byte (x / 65536)
unfolding rev_24
rev_24_as_sum x h =
    let low : bit_and x 0xff ≡ x % 256 = mask_low 8 x in
    let mid : bit_and (x / 2 ^ 8) 0xff ≡ x / 256 % 256 = mask_low 8 (x / 256) in
    let high : bit_and (x / 2 ^ 16) 0xff ≡ x / 65536 = omega (arith, mask_low 8 (x / 65536)) in
    rw (low, mid, high)
      (or_bytes _ _ _ (rev_byte-IsReversed (x / 256 % 256) (omega arith)).small
        (rev_byte-IsReversed (x / 65536) (omega arith)).small)

mirror-acc : (x acc : ℕ) → mirror 8 x acc ≡ acc * 256 + mirror 8 (x % 256) 0
unfolding mirror
mirror-acc x acc = omega arith

-- Eight rounds of mirror take one byte.
mirror-byte :
    (w x acc : ℕ)
    → mirror (suc (suc (suc (suc (suc (suc (suc (suc w)))))))) x acc
      ≡ mirror w (x / 256) (acc * 256 + mirror 8 (x % 256) 0)
unfolding mirror
mirror-byte w x acc =
    let shifted : x / 2 / 2 / 2 / 2 / 2 / 2 / 2 / 2 ≡ x / 256 = omega arith in
    ap₂ (mirror w) shifted (mirror-acc x acc)

-- Reversing the bits of a 24-bit word twice gives the word back.
pub rev_24-rev_24 : (x : ℕ) → x < 2 ^ 24 → rev_24 (rev_24 x) ≡ x
rev_24-rev_24 x h = ground (
  arith,
  rev_24_as_sum x h,
  rev_24_as_sum (rev_24 x),
  rev_byte-IsReversed (x % 256),
  rev_byte-IsReversed (x / 256 % 256),
  rev_byte-IsReversed (x / 65536),
)

-- For a word of 24 bits, rev_24 gives the word whose bits stand in the opposite order.
pub rev_24-mirror : (x : ℕ) → x < 2 ^ 24 → rev_24 x ≡ mirror 24 x 0
rev_24-mirror x h =
    rw (mirror-byte 16 x 0, mirror-byte 8 (x / 256), mirror-byte 0 (x / 256 / 256))
      (unfold mirror in
        ground (
          arith,
          rev_24_as_sum x h,
          rev_byte-IsReversed (x % 256),
          rev_byte-IsReversed (x / 256 % 256),
          rev_byte-IsReversed (x / 65536),
        ))

pub rev_24-lt : (x : ℕ) → x < 2 ^ 24 → rev_24 x < 2 ^ 24
rev_24-lt x h = ground (
  arith,
  rev_24_as_sum x h,
  rev_byte-IsReversed (x % 256),
  rev_byte-IsReversed (x / 256 % 256),
  rev_byte-IsReversed (x / 65536),
)

pub rev_16-lt : (x : ℕ) → rev_16 x < 2 ^ 16
unfolding rev_16
rev_16-lt x = omega arith
