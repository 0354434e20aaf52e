-- ===== src/PpiLaws/Idle.antt =====
-- nrf_ppi_event of src/HW_models/NRF_PPI.c for an event that no enabled channel listens to.
use ext_nrf52_hw_models.Common.{ℕ, suc, ◌≡◌, refl, bit_and}
use ext_nrf52_hw_models.Soc.{Soc, Ppi}
use ext_nrf52_hw_models.Soc.Env.{Env}
use ext_nrf52_hw_models.Ppi.{nrf_ppi_event, ppi_env}

-- No enabled channel listens to the event.
abbrev pub IsUnheard : ℕ → Ppi → Type 0
IsUnheard event p = bit_and (p.evt_to_ch event) p.chen ≡ 0

-- What the models rely on: such an event does nothing.
pub record IgnoresUnheard (env : Env) : Type 0 where
  pub ignored : (event : ℕ) (s : Soc) → IsUnheard event s.ppi → env.nrf_ppi_event event s ≡ s

-- The PPI of the program keeps to it, to any depth of nested events.
pub ppi_env-IgnoresUnheard : (depth : ℕ) (env : Env) → IgnoresUnheard (ppi_env (suc depth) env)
unfolding ppi_env nrf_ppi_event
ppi_env-IgnoresUnheard depth env = record { ignored = λ event s unheard. rw unheard refl }
