-- ===== src/Crc.antt =====
-- src/HW_models/crc.c: the byte and word reversals, the table-driven checksums of the Bluetooth LE
-- and the IEEE 802.15.4 frames, and the functions that append them to a buffer. A buffer is a
-- function from an index to a byte.
mod Tables
unfoldable pub use Tables.{crc_table_24_ble, crc_table_154}
use ext_nrf52_hw_models.Common.{
  ℕ, zero, suc, ◌+◌, ◌*◌, ◌/◌, ◌%◌, ◌^◌, bit_and, bit_or, bit_xor, u8, u16, u32, u64, get_or,
  update,
}

unfoldable pub rev_byte : ℕ → ℕ
rev_byte input =
    u8 (u64 (bit_and (u64 (input * 0x8020_0802)) 0x08_8442_2110 * 0x01_0101_0101) / 2 ^ 32)

unfoldable pub rev_24 : ℕ → ℕ
rev_24 input =
    bit_or
      (bit_or (rev_byte (bit_and input 0xff) * 2 ^ 16)
        (rev_byte (bit_and (input / 2 ^ 8) 0xff) * 2 ^ 8))
      (rev_byte (bit_and (input / 2 ^ 16) 0xff))

unfoldable pub rev_16 : ℕ → ℕ
rev_16 input =
    u16 (bit_or (rev_byte (bit_and input 0xff) * 2 ^ 8) (rev_byte (bit_and (input / 2 ^ 8) 0xff)))

-- The body of the loop of crc_update_ble, at the byte d.
unfoldable pub crc_byte_ble : ℕ → ℕ → ℕ
unfolding crc_table_24_ble
crc_byte_ble crc d =
    let tbl_idx = bit_and (bit_xor crc d) 0xff in
    bit_and (bit_xor (get_or crc_table_24_ble tbl_idx 0) (crc / 2 ^ 8)) 0xff_ffff

-- The loop, with data_len rounds left and d pointing at index i.
unfoldable pub crc_loop_ble : ℕ → ℕ → (ℕ → ℕ) → ℕ → ℕ
unfolding crc_byte_ble
crc_loop_ble zero crc data_at i = crc
crc_loop_ble (suc data_len) crc data_at i =
    crc_loop_ble data_len (crc_byte_ble crc (data_at i)) data_at (i + 1)

unfoldable pub crc_update_ble : ℕ → (ℕ → ℕ) → ℕ → ℕ
unfolding crc_loop_ble
crc_update_ble crc data_at data_len = bit_and (crc_loop_ble data_len crc data_at 0) 0xff_ffff

unfoldable pub append_crc_ble : (ℕ → ℕ) → ℕ → ℕ → ℕ → ℕ
unfolding crc_update_ble rev_24
append_crc_ble buf len crc_init =
    let crc = crc_update_ble (rev_24 crc_init) buf len in
    update (update (update buf (len + 0) (bit_and crc 0xff)) (len + 1) (bit_and (crc / 2 ^ 8) 0xff))
      (len + 2) (bit_and (crc / 2 ^ 16) 0xff)

unfoldable pub crc_byte_154 : ℕ → ℕ → ℕ
unfolding crc_table_154
crc_byte_154 crc d =
    let tbl_idx = bit_and (bit_xor crc d) 0xff in
    bit_and (bit_xor (get_or crc_table_154 tbl_idx 0) (crc / 2 ^ 8)) 0xffff

unfoldable pub crc_loop_154 : ℕ → ℕ → (ℕ → ℕ) → ℕ → ℕ
unfolding crc_byte_154
crc_loop_154 zero crc data_at i = crc
crc_loop_154 (suc data_len) crc data_at i =
    crc_loop_154 data_len (crc_byte_154 crc (data_at i)) data_at (i + 1)

unfoldable pub crc_update_154 : ℕ → (ℕ → ℕ) → ℕ → ℕ
unfolding crc_loop_154
crc_update_154 crc data_at data_len = bit_and (crc_loop_154 data_len crc data_at 0) 0xffff

unfoldable pub append_crc_154 : (ℕ → ℕ) → ℕ → ℕ → ℕ → ℕ
unfolding crc_update_154 rev_16
append_crc_154 buf len crc_init =
    let crc = crc_update_154 (rev_16 crc_init) buf len in
    update (update buf (len + 0) (bit_and crc 0xff)) (len + 1) (bit_and (crc / 2 ^ 8) 0xff)
