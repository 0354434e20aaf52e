-- ===== src/RadioLaws/Rampup.antt =====
-- The ramp-up times of src/HW_models/NRF_RADIO_timings.c.
use ext_nrf52_hw_models.Common.{
  ℕ, zero, suc, ◌≤◌, Bool, true, false, ◌||◌, if◌then◌else◌, Bool-cases, inl, inr, nonzero, bit_and,
  arith,
}
use ext_nrf52_hw_models.Soc.{Radio}
use ext_nrf52_hw_models.Soc.Env.{Env}
use ext_nrf52_hw_models.Radio.{
  tx_ru_time, rx_ru_time, mod_idx, nrfra_is_hw_tifs_enabled, nrfra_timings_get_rampup_time,
}

-- A time between two others.
abbrev pub IsWithin : (low high time : ℕ) → Type 0
IsWithin low high time = (low ≤ time) × (time ≤ high)

tx_fast : (m : ℕ) → IsWithin 40 41 (tx_ru_time m true false)
tx_fast zero = (omega arith, omega arith)
tx_fast (suc zero) = (omega arith, omega arith)
tx_fast (suc (suc m)) = (omega arith, omega arith)

tx_normal : (m : ℕ) (hwtifs : Bool) → IsWithin 129 141 (tx_ru_time m false hwtifs)
tx_normal zero true = (omega arith, omega arith)
tx_normal zero false = (omega arith, omega arith)
tx_normal (suc zero) true = (omega arith, omega arith)
tx_normal (suc zero) false = (omega arith, omega arith)
tx_normal (suc (suc m)) true = (omega arith, omega arith)
tx_normal (suc (suc m)) false = (omega arith, omega arith)

rx_normal : (m : ℕ) (hwtifs : Bool) → IsWithin 129 141 (rx_ru_time m false hwtifs)
rx_normal zero true = (omega arith, omega arith)
rx_normal (suc zero) true = (omega arith, omega arith)
rx_normal (suc (suc m)) true = (omega arith, omega arith)
rx_normal m false = (omega arith, omega arith)

module _ ⦃env : Env⦄ where
  -- The ramp-up to transmit or to receive, with the hardware's TIFS or without, takes 40 or 41 microseconds
  -- where MODECNF0 asks for the fast one, and 129 to 141 otherwise, in every mode: the entries of the tables
  -- that are not set are never read.
  pub rampup_time-IsWithin :
      (tx_not_rx from_hw_tifs : Bool) (r : Radio)
      → let fast = nonzero (bit_and r.modecnf0 1) in
        IsWithin
          (if fast then 40 else 129)
          (if fast then 41 else 141)
          (nrfra_timings_get_rampup_time tx_not_rx from_hw_tifs r)
  unfolding nrfra_timings_get_rampup_time
  rampup_time-IsWithin true from_hw_tifs r =
      let hwtifs = from_hw_tifs || nrfra_is_hw_tifs_enabled r in
      elim (Bool-cases (nonzero (bit_and r.modecnf0 1))) [
        | inl fast ↦ rw fast (tx_fast (mod_idx r))
        | inr normal ↦ rw normal (tx_normal (mod_idx r) hwtifs)
      ]
  rampup_time-IsWithin false from_hw_tifs r =
      let hwtifs = from_hw_tifs || nrfra_is_hw_tifs_enabled r in
      elim (Bool-cases (nonzero (bit_and r.modecnf0 1))) [
        | inl fast ↦ rw fast (omega arith, omega arith)
        | inr normal ↦ rw normal (rx_normal (mod_idx r) hwtifs)
      ]
