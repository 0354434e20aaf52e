-- ===== src/Memory.antt =====
-- Copies of bytes, as the models of src/HW_models make them.
pub mod Laws
use ext_nrf52_hw_models.Common.{ℕ, ◌+◌, ◌*◌, ◌^◌, update, for_range}
use ext_nrf52_hw_models.Soc.{Soc}

-- to[from + k] = bytes[k] for the first count bytes.
unfoldable pub memcpy : (count from : ℕ) → (bytes to : ℕ → ℕ) → ℕ → ℕ
unfolding for_range
memcpy count from bytes to = for_range count 0 (λ k buf. update buf (from + k) (bytes k)) to

-- A word of count bytes of the buffer, the lowest byte first.
abbrev pub word_at : (count from : ℕ) → (buf : ℕ → ℕ) → ℕ
word_at count from buf = for_range count 0 (λ i sum. sum + buf (from + i) * 2 ^ (i * 8)) 0

-- A byte at an address, and a copy of bytes from it on.
abbrev pub store_byte : (address value : ℕ) → Soc → Soc
store_byte address value s = record s { ram = update s.ram address value }

abbrev pub store_bytes : (count address : ℕ) → (bytes : ℕ → ℕ) → Soc → Soc
store_bytes count address bytes s = record s { ram = memcpy count address bytes s.ram }
