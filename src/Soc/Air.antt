-- ===== src/Soc/Air.antt =====
-- The registers of src/HW_models/NRF_RADIO.c that its code reads or sets, and its variables with those of
-- NRF_RADIO_bitcounter.c.
use ext_nrf52_hw_models.Common.{ℕ, Bool}
use ext_nrf52_hw_models.Soc.Phy.{RadioFsm}

-- The tasks, in the order of their rows in ppi_tasks_table.
pub data RadioTask : Type 0 where
  txen rxen start stop disable rssistart rssistop : RadioTask
  bcstart bcstop edstart edstop ccastart ccastop : RadioTask

-- RADIO_SHORTS_*: the event before the underscore triggers the task after it.
pub data RadioShort : Type 0 where
  ready_start ready_edstart address_rssistart address_bcstart end_disable end_start : RadioShort
  disabled_txen disabled_rxen disabled_rssistop framestart_bcstart edend_disable : RadioShort
  ccaidle_stop ccaidle_txen ccabusy_disable txready_start rxready_start : RadioShort
  rxready_ccastart phyend_disable phyend_start : RadioShort

-- The fields of the registers that the code uses, but for those of one bit.
pub data RadioField : Type 0 where
  pcnf0_lflen pcnf0_s0len pcnf0_s1len pcnf0_s1incl pcnf0_plen pcnf0_crcinc : RadioField
  pcnf0_cilen pcnf0_termlen pcnf1_whiteen pcnf1_endian pcnf1_balen pcnf1_statlen : RadioField
  crccnf_len ccactrl_ccamode ccactrl_ccaedthres edcnt_edcnt : RadioField
  frequency_frequency prefix0_ap0 sfd_sfd txpower_txpower crcinit_crcinit : RadioField

pub record Radio : Type 0 where
  pub mode : ℕ
  pub modecnf0 : ℕ
  pub shorts : ℕ
  pub pcnf0 : ℕ
  pub pcnf1 : ℕ
  pub crccnf : ℕ
  pub packetptr : ℕ
  pub inten : ℕ  -- NRF_RADIO_INTEN
  pub intenset : ℕ
  pub intenclr : ℕ
  pub bcc : ℕ
  pub state : ℕ
  pub crcstatus : ℕ
  pub rxcrc : ℕ
  pub pdustat : ℕ
  pub rxmatch : ℕ
  pub dacnf : ℕ
  pub dab : ℕ → ℕ
  pub dap : ℕ → ℕ
  pub dai : ℕ
  pub rssisample : ℕ
  pub edsample : ℕ
  pub ccactrl : ℕ
  pub edcnt : ℕ
  pub tifs : ℕ
  pub prefix0 : ℕ
  pub base0 : ℕ
  pub sfd : ℕ
  pub frequency : ℕ
  pub txpower : ℕ
  pub crcinit : ℕ
  pub power : ℕ
  pub events : ℕ → ℕ  -- EVENTS_*, by the event's number in NRF_PPI.h
  pub tasks : ℕ → ℕ  -- TASKS_*, by the task's row in ppi_tasks_table
  pub rssi_sampling_on : Bool
  pub quarter_bits_per_us : ℕ  -- bits_per_us, which is 1/4, 1 or 2, times four
  pub bit_counter_running : Bool
  pub time_bitcounter_started : ℕ
  pub fsm : RadioFsm
