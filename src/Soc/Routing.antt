-- ===== src/Soc/Routing.antt =====
-- The variables of src/HW_models/NRF_PPI.c and NRF_AAR.c.
use ext_nrf52_hw_models.Common.{ℕ, Bool, Option, List}

-- NRF_PPI.c. A pointer to a task's function is the number of its row in ppi_tasks_table, and none is
-- NULL.
pub record Ppi : Type 0 where
  pub chen : ℕ
  pub chenset : ℕ
  pub chenclr : ℕ
  pub eep : ℕ → ℕ  -- CH[i].EEP
  pub tep : ℕ → ℕ  -- CH[i].TEP
  pub fork_tep : ℕ → ℕ  -- FORK[i].TEP
  pub chg : ℕ → ℕ
  pub tasks_chg_en : ℕ → ℕ
  pub tasks_chg_dis : ℕ → ℕ
  pub evt_to_ch : ℕ → ℕ  -- ppi_evt_to_ch[i].channels_mask
  pub tep_f : ℕ → Option ℕ  -- ppi_ch_tasks[i].tep_f
  pub fork_tep_f : ℕ → Option ℕ
  pub queue : List (Option ℕ)  -- the used entries of tasks_queue

-- NRF_AAR.c
pub record Aar : Type 0 where
  pub running : Bool  -- AAR_Running
  pub matching_irk : Option ℕ  -- none is -1
  pub inten : ℕ  -- AAR_INTEN
  pub intenset : ℕ
  pub intenclr : ℕ
  pub enable : ℕ
  pub nirk : ℕ
  pub irkptr : ℕ
  pub addrptr : ℕ
  pub status : ℕ
  pub events_end : ℕ
  pub events_resolved : ℕ
  pub events_notresolved : ℕ
  pub tasks_start : ℕ
  pub tasks_stop : ℕ
