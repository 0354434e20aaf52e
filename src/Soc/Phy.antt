-- ===== src/Soc/Phy.antt =====
-- What src/HW_models/NRF_RADIO.c exchanges with the physical layer simulation, and the statuses of
-- NRF_RADIO_priv.h that hold it. The structures are those of libPhyComv1, but for the fields that no code
-- here sets or reads.
use ext_nrf52_hw_models.Common.{ℕ, Bool}

-- What a call returns: -1, one of P2G4_MSG_*, or 0.
pub data PhyMessage : Type 0 where
  disconnected tx_end rxv2_addressfound rxv2_end cca_end abortreeval no_message : PhyMessage

-- P2G4_MOD_*
pub data Modulation : Type 0 where
  mod_ble mod_ble2m mod_154_250k_dss mod_other : Modulation

-- p2G4_abort_t
pub record Abort : Type 0 where
  pub abort_time : ℕ
  pub recheck_time : ℕ

-- p2G4_txv2_t
pub record TxRequest : Type 0 where
  pub start_tx_time : ℕ
  pub end_tx_time : ℕ
  pub start_packet_time : ℕ
  pub end_packet_time : ℕ
  pub phy_address : ℕ
  pub abort : Abort
  pub modulation : Modulation
  pub center_freq : ℕ
  pub power_level : ℕ
  pub packet_size : ℕ
  pub coding_rate : ℕ

pub record TxReply : Type 0 where
  pub ret : PhyMessage
  pub end_time : ℕ

-- P2G4_RXSTATUS_*
pub data RxOutcome : Type 0 where
  rx_ok rx_crc_error rx_header_error rx_nosync : RxOutcome

-- p2G4_rxv2_t, with the first of the addresses.
pub record RxRequest : Type 0 where
  pub start_time : ℕ
  pub scan_duration : ℕ
  pub forced_packet_duration : ℕ
  pub error_calc_rate : ℕ
  pub antenna_gain : ℕ
  pub header_duration : ℕ
  pub pream_and_addr_duration : ℕ
  pub header_threshold : ℕ
  pub sync_threshold : ℕ
  pub acceptable_pre_truncation : ℕ
  pub n_addr : ℕ
  pub address : ℕ
  pub abort : Abort
  pub modulation : Modulation
  pub center_freq : ℕ
  pub coding_rate : ℕ
  pub resp_type : ℕ

-- p2G4_rxv2_done_t
pub record RxResponse : Type 0 where
  pub status : RxOutcome
  pub rx_time_stamp : ℕ
  pub end_time : ℕ
  pub packet_size : ℕ
  pub rssi : ℕ

-- What a call returns, and leaves in the response and in the packet's buffer.
pub record RxReply : Type 0 where
  pub ret : PhyMessage
  pub resp : RxResponse
  pub packet : ℕ → ℕ

-- p2G4_cca_t
pub record CcaRequest : Type 0 where
  pub start_time : ℕ
  pub scan_duration : ℕ
  pub scan_period : ℕ
  pub antenna_gain : ℕ
  pub center_freq : ℕ
  pub modulation : Modulation
  pub rssi_threshold : ℕ
  pub mod_threshold : ℕ
  pub stop_when_found : ℕ
  pub abort : Abort

-- p2G4_cca_done_t
pub record CcaResponse : Type 0 where
  pub end_time : ℕ
  pub rssi_max : ℕ
  pub rssi_overthreshold : Bool
  pub mod_found : Bool

pub record CcaReply : Type 0 where
  pub ret : PhyMessage
  pub resp : CcaResponse

-- nrfra_state_t
pub data RadioState : Type 0 where
  rad_disabled rad_rxru rad_rxidle rad_rx rad_rxdisable : RadioState
  rad_txru rad_txidle rad_txstarting rad_tx rad_txdisable rad_cca_ed : RadioState

-- nrfra_sub_state_t
pub data SubState : Type 0 where
  sub_state_invalid : SubState
  tx_wait_for_address_end tx_wait_for_payload_end tx_wait_for_crc_end : SubState
  rx_wait_for_address_end rx_wait_for_payload_end rx_wait_for_crc_end : SubState

-- TIFS_state_t
pub data TifsState : Type 0 where
  tifs_disable tifs_waiting_for_disable tifs_triggering_trx_en : TifsState

-- abort_state_t
pub data AbortState : Type 0 where
  no_pending_abort_reeval tx_abort_reeval rx_abort_reeval cca_abort_reeval : AbortState

-- RADIO_Rx_status_t
pub record RxStatus : Type 0 where
  pub address_end_time : ℕ
  pub payload_end_time : ℕ
  pub crc_end_time : ℕ
  pub crc_duration : ℕ
  pub rx_req : RxRequest
  pub rx_resp : RxResponse
  pub crc_ok : Bool
  pub packet_rejected : Bool
  pub s1_offset : ℕ

-- RADIO_Tx_status_t
pub record TxStatus : Type 0 where
  pub address_end_time : ℕ
  pub payload_end_time : ℕ
  pub crc_end_time : ℕ
  pub tx_req : TxRequest
  pub tx_resp_end_time : ℕ

-- RADIO_CCA_status_t
pub record CcaStatus : Type 0 where
  pub cca_end_time : ℕ
  pub cca_req : CcaRequest
  pub cca_resp : CcaResponse
  pub is_busy : Bool
  pub cca_not_ed : Bool

-- The variables of the state machines.
pub record RadioFsm : Type 0 where
  pub radio_state : RadioState
  pub radio_sub_state : SubState
  pub tifs_state : TifsState
  pub tifs_to_tx_not_rx : Bool
  pub timer_tifs : ℕ
  pub from_hw_tifs : Bool
  pub rx_status : RxStatus
  pub tx_status : TxStatus
  pub cca_status : CcaStatus
  pub next_recheck_time : ℕ
  pub abort_fsm_state : AbortState
  pub aborting_set : Bool
  pub tx_buf : ℕ → ℕ
  pub rx_buf : ℕ → ℕ
  pub radio_on : Bool
