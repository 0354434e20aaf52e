-- ===== src/CrcLaws/Residue.antt =====
-- The check of a receiver: the checksum over a frame and the checksum that append_crc_ble or
-- append_crc_154 of src/HW_models/crc.c has put behind it is zero.
use ext_nrf52_hw_models.Common.{
  ℕ, zero, suc, ◌+◌, ◌/◌, ◌%◌, ◌^◌, ◌<◌, bit_and, ◌≡◌, refl, sym, ◌∙◌, ap, arith,
}
use ext_nrf52_hw_models.Common.Bits.{mask_low}
use ext_nrf52_hw_models.Crc.{
  rev_24, crc_update_ble, append_crc_ble, rev_16, crc_update_154, append_crc_154,
}
use ext_nrf52_hw_models.CrcLaws.Reverse.{rev_24-lt, rev_16-lt}
use ext_nrf52_hw_models.CrcLaws.Division.{
  divide_byte, divide, ble_poly, ieee_poly, divide_byte_cancel, crc_update_ble-divide,
  crc_update_154-divide,
}

-- Division goes on where it stopped.
divide-add :
    (poly n m c i : ℕ) (message : ℕ → ℕ)
    → divide poly (n + m) c message i ≡ divide poly m (divide poly n c message i) message (i + n)
unfolding divide
divide-add poly zero m c i message = ground arith
divide-add poly (suc n) m c i message =
    let longer : suc n + m ≡ suc (n + m) = omega arith in
    let later : i + 1 + n ≡ i + suc n = omega arith in
    rw (longer, ← later) (divide-add poly n m (divide_byte poly c (message i)) (i + 1) message)

-- It reads the message in its own range alone.
divide_local :
    (poly n c i : ℕ) (message other : ℕ → ℕ)
    → ((j : ℕ) → j < i + n → message j ≡ other j)
    → divide poly n c message i ≡ divide poly n c other i
unfolding divide
divide_local poly zero c i message other same = refl
divide_local poly (suc n) c i message other same = rw (same i (omega arith)) (
    divide_local poly n (divide_byte poly c (other i)) (i + 1) message other
      (λ j below. same j (omega arith)))

abbrev pub IsBytes : (ℕ → ℕ) → Type 0
IsBytes buf = (j : ℕ) → buf j < 256

mask-lt : (x : ℕ) → bit_and x 0xff < 256
mask-lt x = omega (arith, mask_low 8 x)

append_crc_ble-IsBytes :
    (buf : ℕ → ℕ) (len init : ℕ) → IsBytes buf → IsBytes (append_crc_ble buf len init)
unfolding append_crc_ble
append_crc_ble-IsBytes buf len init bytes j =
    let c = crc_update_ble (rev_24 init) buf len in
    ground (arith, bytes j, mask-lt c, mask-lt (c / 2 ^ 8), mask-lt (c / 2 ^ 16))

-- Where the frame holds the remainder itself, lowest byte first, nothing remains of it.
ble_cancel :
    (c : ℕ) (frame : ℕ → ℕ) (i : ℕ)
    → c < 2 ^ 24
    → frame i ≡ bit_and c 0xff
    → frame (i + 1) ≡ bit_and (c / 2 ^ 8) 0xff
    → frame (i + 1 + 1) ≡ bit_and (c / 2 ^ 16) 0xff
    → divide ble_poly 3 c frame i ≡ 0
unfolding divide
ble_cancel c frame i h f0 f1 f2 =
    let g1 : frame (i + 1) ≡ c / 256 % 256 = f1 ∙ mask_low 8 (c / 256) in
    let g2 : frame (i + 1 + 1) ≡ c / 256 / 256 % 256 = omega (arith, f2, mask_low 8 (c / 65536)) in
    let cancel = divide_byte_cancel 24 ble_poly (omega arith) in
    let first = cancel c h (omega arith) in
    let second = cancel (c / 256) (omega arith) (omega arith) in
    let third = cancel (c / 256 / 256) (omega arith) (omega arith) in
    rw (f0 ∙ mask_low 8 c, g1, g2) (rw (first, second) (third ∙ omega arith))

ieee_cancel :
    (c : ℕ) (frame : ℕ → ℕ) (i : ℕ)
    → c < 2 ^ 16
    → frame i ≡ bit_and c 0xff
    → frame (i + 1) ≡ bit_and (c / 2 ^ 8) 0xff
    → divide ieee_poly 2 c frame i ≡ 0
unfolding divide
ieee_cancel c frame i h f0 f1 =
    let g1 : frame (i + 1) ≡ c / 256 % 256 = f1 ∙ mask_low 8 (c / 256) in
    let cancel = divide_byte_cancel 16 ieee_poly (omega arith) in
    let first = cancel c h (omega arith) in
    let second = cancel (c / 256) (omega arith) (omega arith) in
    rw (f0 ∙ mask_low 8 c, g1) (rw first (second ∙ omega arith))

-- For a buffer of bytes and an initial value of 24 bits, the Bluetooth LE checksum over the first
-- len bytes and the three bytes that append_crc_ble writes behind them is 0.
pub append_crc_ble-residue :
    (buf : ℕ → ℕ) (len init : ℕ)
    → IsBytes buf
    → init < 2 ^ 24
    → crc_update_ble (rev_24 init) (append_crc_ble buf len init) (len + 3) ≡ 0
append_crc_ble-residue buf len init bytes h =
    let start = rev_24 init in
    let frame = append_crc_ble buf len init in
    let small : start < 2 ^ 24 = rev_24-lt init h in
    let c = crc_update_ble start buf len in
    let sent = crc_update_ble-divide start len buf small bytes in
    let message : divide ble_poly len start frame 0 ≡ c =
      divide_local ble_poly len start 0 frame buf (λ j below. unfold append_crc_ble in ground arith)
      ∙ sym sent.0 in
    (crc_update_ble-divide start (len + 3) frame small
      (append_crc_ble-IsBytes buf len init bytes)).0
    ∙ divide-add ble_poly len 3 start 0 frame
    ∙ ap (λ (t : ℕ). divide ble_poly 3 t frame (0 + len)) message
    ∙ ble_cancel c frame (0 + len) sent.1 (unfold append_crc_ble in ground arith)
        (unfold append_crc_ble in ground arith) (unfold append_crc_ble in ground arith)

append_crc_154-IsBytes :
    (buf : ℕ → ℕ) (len init : ℕ) → IsBytes buf → IsBytes (append_crc_154 buf len init)
unfolding append_crc_154
append_crc_154-IsBytes buf len init bytes j =
    let c = crc_update_154 (rev_16 init) buf len in
    ground (arith, bytes j, mask-lt c, mask-lt (c / 2 ^ 8))

-- For a buffer of bytes, the IEEE 802.15.4 checksum over the first len bytes and the two bytes that
-- append_crc_154 writes behind them is 0, at every initial value.
pub append_crc_154-residue :
    (buf : ℕ → ℕ) (len init : ℕ)
    → IsBytes buf
    → crc_update_154 (rev_16 init) (append_crc_154 buf len init) (len + 2) ≡ 0
append_crc_154-residue buf len init bytes =
    let start = rev_16 init in
    let frame = append_crc_154 buf len init in
    let small : start < 2 ^ 16 = rev_16-lt init in
    let c = crc_update_154 start buf len in
    let sent = crc_update_154-divide start len buf small bytes in
    let message : divide ieee_poly len start frame 0 ≡ c =
      divide_local ieee_poly len start 0 frame buf
        (λ j below. unfold append_crc_154 in ground arith)
      ∙ sym sent.0 in
    (crc_update_154-divide start (len + 2) frame small
      (append_crc_154-IsBytes buf len init bytes)).0
    ∙ divide-add ieee_poly len 2 start 0 frame
    ∙ ap (λ (t : ℕ). divide ieee_poly 2 t frame (0 + len)) message
    ∙ ieee_cancel c frame (0 + len) sent.1 (unfold append_crc_154 in ground arith)
        (unfold append_crc_154 in ground arith)
