-- ===== src/Examples/Crypt.antt =====
-- A packet of three bytes that is encrypted and decrypted.
use ext_nrf52_hw_models.Common.{
  ℕ, ◌/◌, ◌≡◌, refl, false, if◌then◌else◌, ltb, ◌==◌, arith, inl, [], ◌∷◌,
}
use ext_nrf52_hw_models.Soc.{Soc}
use ext_nrf52_hw_models.Examples.Setup.{bench, rest, idle_ccm}
use ext_nrf52_hw_models.Ccm.{decrypt_packet}
use ext_nrf52_hw_models.CcmLaws.RoundTrip.{bytes_at, packet_at, received, encrypt-decrypt}
use ext_nrf52_hw_models.CcmLaws.Nonce.{nonce_calc-injective}

-- Header 2, length 3, and the payload after a byte for S1.
abbrev packet_in_ram : ℕ → ℕ
packet_in_ram a =
    if a == 0x100
    then 2
    else if a == 0x101
    then 3
    else if ltb a 0x103
    then 0
    else if ltb a 0x106
    then a / 2
    else 0

abbrev sending : Soc
sending = record rest {
  ram = packet_in_ram;
  ccm = record idle_ccm { enable = 2; mode = 0; cnfptr = 0x400; inptr = 0x100; outptr = 0x200 };
}

packet_to_send : packet_at 0x100 packet_in_ram ≡ (2, 129 ∷ 130 ∷ 130 ∷ [])
unfolding packet_at bytes_at
packet_to_send = refl

encrypt-decrypt_example :
    ((decrypt_packet ⦃env = bench⦄ (received ⦃env = bench⦄ 0x300 sending)).mic_error ≡ false)
    × (packet_at 0x300 (decrypt_packet ⦃env = bench⦄ (received ⦃env = bench⦄ 0x300 sending)).soc.ram
        ≡ packet_at 0x100 packet_in_ram)
encrypt-decrypt_example =
    encrypt-decrypt ⦃env = bench⦄ 0x300 sending refl (omega arith) (inl (omega arith))
      (inl (omega arith))

abbrev packet_counter : ℕ
packet_counter = 0x1234567890

abbrev direction : ℕ
direction = 1

nonce_calc-injective_example : (packet_counter ≡ packet_counter) × (direction ≡ direction)
nonce_calc-injective_example =
    nonce_calc-injective (λ k. k) (λ k. k) packet_counter packet_counter direction direction
      (omega arith) (omega arith) (omega arith) (omega arith) (λ i p. refl)
