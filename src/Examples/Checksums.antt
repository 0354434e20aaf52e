-- ===== src/Examples/Checksums.antt =====
-- The acknowledgment frame of the unit test in src/HW_models/crc.c, and runs of the laws on it.
use ext_nrf52_hw_models.Common.{ℕ, ◌+◌, ◌^◌, ◌<◌, ◌≡◌, refl, ◌==◌, if◌then◌else◌, arith}
use ext_nrf52_hw_models.Crc.{
  crc_update_ble, crc_update_154, append_crc_ble, append_crc_154, rev_24, rev_16, crc_loop_154,
  crc_byte_154, crc_table_154, rev_byte,
}
use ext_nrf52_hw_models.CrcLaws.Reverse.{mirror, rev_24-mirror}
use ext_nrf52_hw_models.CrcLaws.Division.{
  divide, ble_poly, ieee_poly, crc_update_ble-divide, crc_update_154-divide,
}
use ext_nrf52_hw_models.CrcLaws.Residue.{IsBytes, append_crc_ble-residue, append_crc_154-residue}

-- test_data, at the start of a buffer of zeros.
abbrev test_data : ℕ → ℕ
test_data j = if j == 0 then 0x2 else if j == 2 then 0x6A else 0

test_data-IsBytes : IsBytes test_data
test_data-IsBytes j = ground arith

-- What main of the unit test checks.
test_crc_154 : (append_crc_154 test_data 3 0 3 ≡ 0xE4) × (append_crc_154 test_data 3 0 4 ≡ 0x79)
unfolding append_crc_154 crc_update_154 crc_loop_154 crc_byte_154 rev_16 crc_table_154 rev_byte
test_crc_154 = (refl, refl)

append_crc_ble-residue_example :
    crc_update_ble (rev_24 0x555555) (append_crc_ble test_data 3 0x555555) (3 + 3) ≡ 0
append_crc_ble-residue_example =
    append_crc_ble-residue test_data 3 0x555555 test_data-IsBytes (omega arith)

append_crc_154-residue_example :
    crc_update_154 (rev_16 0) (append_crc_154 test_data 3 0) (3 + 2) ≡ 0
append_crc_154-residue_example = append_crc_154-residue test_data 3 0 test_data-IsBytes

crc_update_ble-divide_example :
    (crc_update_ble 0xAAAAAA test_data 3 ≡ divide ble_poly 3 0xAAAAAA test_data 0)
    × (crc_update_ble 0xAAAAAA test_data 3 < 2 ^ 24)
crc_update_ble-divide_example =
    crc_update_ble-divide 0xAAAAAA 3 test_data (omega arith) test_data-IsBytes

crc_update_154-divide_example :
    (crc_update_154 0 test_data 3 ≡ divide ieee_poly 3 0 test_data 0)
    × (crc_update_154 0 test_data 3 < 2 ^ 16)
crc_update_154-divide_example = crc_update_154-divide 0 3 test_data (omega arith) test_data-IsBytes

rev_24-mirror_example : rev_24 0x123456 ≡ mirror 24 0x123456 0
rev_24-mirror_example = rev_24-mirror 0x123456 (omega arith)
