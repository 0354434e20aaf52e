-- ===== src/Soc/Env.antt =====
-- What the models take from outside: constants of the MDK headers and of BabbleSim, the board's
-- callbacks, the cipher's library and the physical layer.
use ext_nrf52_hw_models.Common.{ℕ, Bool}
use ext_nrf52_hw_models.Common.Int.{ℤ}
use ext_nrf52_hw_models.Soc.Phy.{
  Abort, TxRequest, TxReply, RxRequest, RxReply, CcaRequest, CcaReply,
}
use ext_nrf52_hw_models.Soc.Air.{RadioShort, RadioField}
use ext_nrf52_hw_models.Soc.State.{Soc}

-- Constants of the nRF52833 MDK headers (nrf52833.h, nrf52833_bitfields.h).
pub record Mdk : Type 0 where
  pub timer_intenset_compare0_msk : ℕ
  pub timer_shorts_compare0_clear_msk : ℕ
  pub timer_shorts_compare0_stop_msk : ℕ
  pub timer_irqn : ℕ → ℕ
  pub rtc_evten_compare0_msk : ℕ
  pub rtc_evten_ovrflw_msk : ℕ
  pub rtc_irqn : ℕ → ℕ
  pub clock_inten_hfclkstarted_msk : ℕ
  pub clock_inten_lfclkstarted_msk : ℕ
  pub clock_inten_done_msk : ℕ
  pub clock_inten_ctto_msk : ℕ
  pub clock_inten_ctstarted_msk : ℕ
  pub clock_inten_ctstopped_msk : ℕ
  pub clock_lfclksrc_src_msk : ℕ
  pub clock_lfclkrun_status_msk : ℕ
  pub clock_hfclkrun_status_msk : ℕ
  pub clock_lfclkstat_state_msk : ℕ
  pub clock_lfclkstat_src_pos : ℕ
  pub clock_hfclkstat_state_msk : ℕ
  pub clock_hfclkstat_src_xtal : ℕ
  pub clock_hfclkstat_src_pos : ℕ
  pub power_clock_irqn : ℕ
  pub temp_irqn : ℕ
  pub rng_irqn : ℕ
  pub ecb_irqn : ℕ
  pub ecb_intenset_endecb_msk : ℕ
  pub ecb_intenset_errorecb_msk : ℕ
  pub swi0_egu0_irqn : ℕ
  pub nvmc_config_wen_msk : ℕ
  pub nvmc_config_wen_wen : ℕ
  pub nvmc_config_wen_een : ℕ
  pub ccm_aar_irqn : ℕ
  pub ccm_intenset_endksgen_msk : ℕ
  pub ccm_intenset_endcrypt_msk : ℕ
  pub ccm_shorts_endksgen_crypt_msk : ℕ
  pub ccm_enable_enabled : ℕ
  pub ccm_mode_mode_msk : ℕ
  pub ccm_mode_mode_pos : ℕ
  pub ccm_mode_mode_encryption : ℕ
  pub aar_intenset_end_msk : ℕ
  pub aar_intenclr_resolved_msk : ℕ
  pub aar_intenclr_notresolved_msk : ℕ
  pub gpio_pin_cnf_dir_msk : ℕ
  pub gpio_pin_cnf_input_msk : ℕ
  pub gpio_pin_cnf_input_pos : ℕ
  pub gpio_pin_cnf_sense_msk : ℕ
  pub gpio_pin_cnf_sense_pos : ℕ
  pub gpiote_irqn : ℕ
  pub gpiote_intenclr_port_msk : ℕ
  pub gpiote_intenclr_port_pos : ℕ
  pub gpiote_config_mode_msk : ℕ
  pub gpiote_config_mode_disabled : ℕ
  pub gpiote_config_mode_event : ℕ
  pub gpiote_config_mode_task : ℕ
  pub gpiote_config_psel_msk : ℕ
  pub gpiote_config_psel_pos : ℕ
  pub gpiote_config_port_msk : ℕ
  pub gpiote_config_port_pos : ℕ
  pub gpiote_config_polarity_msk : ℕ
  pub gpiote_config_polarity_pos : ℕ
  pub gpiote_config_polarity_none : ℕ
  pub gpiote_config_polarity_lo_to_hi : ℕ
  pub gpiote_config_polarity_hi_to_lo : ℕ
  pub gpiote_config_polarity_toggle : ℕ
  pub gpiote_config_outinit_msk : ℕ
  pub gpiote_config_outinit_pos : ℕ
  pub radio_irqn : ℕ
  pub radio_mode_ble_1mbit : ℕ
  pub radio_mode_ble_2mbit : ℕ
  pub radio_mode_ieee802154_250kbit : ℕ
  pub radio_modecnf0_ru_msk : ℕ
  pub radio_field_msk : RadioField → ℕ
  pub radio_field_pos : RadioField → ℕ
  pub radio_pcnf0_plen_8bit : ℕ
  pub radio_pcnf0_plen_16bit : ℕ
  pub radio_pcnf0_plen_32bitzero : ℕ
  pub radio_pcnf0_s1incl_include : ℕ
  pub radio_pcnf1_endian_little : ℕ
  pub radio_crccnf_len_two : ℕ
  pub radio_crccnf_len_three : ℕ
  pub radio_pdustat_msk : ℕ
  pub radio_ccactrl_ccamode_edmode : ℕ
  pub radio_ccactrl_ccamode_carriermode : ℕ
  pub radio_ccactrl_ccamode_carrierandedmode : ℕ
  pub radio_ccactrl_ccamode_carrieroredmode : ℕ
  pub radio_ccactrl_ccamode_edmodetest1 : ℕ
  pub radio_mode_ble_lr125kbit : ℕ
  pub radio_mode_ble_lr500kbit : ℕ
  pub nfct_maxlen_msk : ℕ
  pub nfct_maxlen_pos : ℕ
  -- RADIO_SHORTS_*_Msk, and RADIO_INTENSET_*_Msk by the event's number in NRF_PPI.h.
  pub radio_shorts_msk : RadioShort → ℕ
  pub radio_intenset_msk : ℕ → ℕ

pub record Env : Type 0 where
  pub mdk : Mdk
  -- TIME_NEVER of bs_types.h.
  pub time_never : ℕ
  -- The callbacks that the board gives to irq_ctrl.c and bstest_ticker.c.
  pub posix_interrupt_raised : Soc → Soc
  pub posix_irq_handler_im_from_sw : Soc → Soc
  pub bst_tick : ℕ → Soc → Soc
  -- The random numbers of BabbleSim as they would be drawn in the given state: bs_random_uint32(),
  -- and bs_random_uniformRi(-1, 1) plus one, so that it is a natural number.
  pub bs_random_uint32 : Soc → ℕ
  pub bs_random_uniform_ri_plus_one : Soc → ℕ
  -- tm_abs_time_to_hw_time
  pub tm_abs_time_to_hw_time : ℕ → ℕ
  -- libCryptov1: the cipher on a key and a plain text; a packet's payload and the MIC after it, from its
  -- first header byte, its length, its bytes, the key and the nonce; and the payload of an encrypted
  -- packet, with whether its MIC is right.
  pub blecrypt_aes_128 : (key plain : ℕ → ℕ) → ℕ → ℕ
  pub blecrypt_packet_encrypt : (header length : ℕ) (payload sk nonce : ℕ → ℕ) → ℕ → ℕ
  pub blecrypt_packet_decrypt :
      (header length : ℕ) (payload sk nonce : ℕ → ℕ) (no_mic : Bool) → ℕ × (ℕ → ℕ)
  -- tm_get_abs_time
  pub tm_get_abs_time : Soc → ℕ
  -- The call of nrf_ppi_event of NRF_PPI.c by a model: Ppi.ppi_env puts the model of it here.
  pub nrf_ppi_event : ℕ → Soc → Soc
  -- The addresses of the registers: of the task in a row of ppi_tasks_table, and of an event.
  pub task_addr : ℕ → ℕ
  pub event_addr : ℕ → ℕ
  -- The callback of a test for a change of a pin's input.
  pub test_intoggle_callback : (port pin : ℕ) → Bool → Soc → Soc
  -- The time machine: tm_get_next_timer_abstime and tm_update_last_phy_sync_time.
  pub tm_get_next_timer_abstime : Soc → ℕ
  pub tm_update_last_phy_sync_time : ℕ → Soc → Soc
  -- phy_time_from_dev and dev_time_from_phy of the crystal's model, from microseconds to microseconds.
  pub phy_time_from_dev : ℕ → ℕ
  pub dev_time_from_phy : ℕ → ℕ
  -- libPhyComv1: p2G4_freq_from_d at an offset of 1 MHz steps, p2G4_power_from_d and
  -- p2G4_RSSI_value_from_dBm at a whole number of dBm, and p2G4_RSSI_value_to_dBm, whose double is the
  -- integer divided by dbm_scale.
  pub p2g4_freq_from_d : ℕ → ℕ
  pub p2g4_power_from_d : ℤ → ℕ
  pub p2g4_rssi_value_from_dbm : ℤ → ℕ
  pub p2g4_rssi_value_to_dbm : ℕ → ℤ
  pub dbm_scale : ℕ
  -- Its requests, p2G4_dev_*, as they would be answered in the given state.
  pub p2g4_dev_req_txv2 : TxRequest → (packet : ℕ → ℕ) → Soc → TxReply
  pub p2g4_dev_provide_new_tx_abort : Abort → Soc → TxReply
  pub p2g4_dev_req_rxv2 : RxRequest → Soc → RxReply
  pub p2g4_dev_provide_new_rxv2_abort : Abort → Soc → RxReply
  pub p2g4_dev_rxv2_cont_after_addr : (continue : Bool) → Abort → Soc → RxReply
  pub p2g4_dev_req_cca : CcaRequest → Soc → CcaReply
  pub p2g4_dev_provide_new_cca_abort : Abort → Soc → CcaReply
