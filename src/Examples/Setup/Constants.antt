-- ===== src/Examples/Setup/Constants.antt =====
-- The constants of the nRF52833.
use ext_nrf52_hw_models.Common.{ℕ, ◌*◌, [], ◌∷◌, get_or, ◌-◌, ◌^◌}
use ext_nrf52_hw_models.Soc.{
  RadioField, pcnf0_lflen, pcnf0_s0len, pcnf0_s1len, pcnf0_s1incl, pcnf0_plen, pcnf0_crcinc,
  pcnf0_cilen, pcnf0_termlen, pcnf1_whiteen, pcnf1_endian, pcnf1_balen, pcnf1_statlen, crccnf_len,
  ccactrl_ccamode, ccactrl_ccaedthres, edcnt_edcnt, frequency_frequency, prefix0_ap0, sfd_sfd,
  txpower_txpower, crcinit_crcinit, RadioShort, address_bcstart, address_rssistart, ccabusy_disable,
  ccaidle_stop, ccaidle_txen, disabled_rssistop, disabled_rxen, disabled_txen, edend_disable,
  end_disable, end_start, framestart_bcstart, phyend_disable, phyend_start, ready_edstart,
  ready_start, rxready_ccastart, rxready_start, txready_start,
}
use ext_nrf52_hw_models.Soc.Env.{Mdk}

abbrev pub radio_short_bit : RadioShort → ℕ
radio_short_bit ready_start = 2 ^ 0
radio_short_bit end_disable = 2 ^ 1
radio_short_bit disabled_txen = 2 ^ 2
radio_short_bit disabled_rxen = 2 ^ 3
radio_short_bit address_rssistart = 2 ^ 4
radio_short_bit end_start = 2 ^ 5
radio_short_bit address_bcstart = 2 ^ 6
radio_short_bit disabled_rssistop = 2 ^ 8
radio_short_bit rxready_ccastart = 2 ^ 11
radio_short_bit ccaidle_txen = 2 ^ 12
radio_short_bit ccabusy_disable = 2 ^ 13
radio_short_bit framestart_bcstart = 2 ^ 14
radio_short_bit ready_edstart = 2 ^ 15
radio_short_bit edend_disable = 2 ^ 16
radio_short_bit ccaidle_stop = 2 ^ 17
radio_short_bit txready_start = 2 ^ 18
radio_short_bit rxready_start = 2 ^ 19
radio_short_bit phyend_disable = 2 ^ 20
radio_short_bit phyend_start = 2 ^ 21

abbrev pub radio_field_pos : RadioField → ℕ
radio_field_pos pcnf0_lflen = 0
radio_field_pos pcnf0_s0len = 8
radio_field_pos pcnf0_s1len = 16
radio_field_pos pcnf0_s1incl = 20
radio_field_pos pcnf0_cilen = 22
radio_field_pos pcnf0_plen = 24
radio_field_pos pcnf0_crcinc = 26
radio_field_pos pcnf0_termlen = 29
radio_field_pos pcnf1_statlen = 8
radio_field_pos pcnf1_balen = 16
radio_field_pos pcnf1_endian = 24
radio_field_pos pcnf1_whiteen = 25
radio_field_pos crccnf_len = 0
radio_field_pos ccactrl_ccamode = 0
radio_field_pos ccactrl_ccaedthres = 8
radio_field_pos edcnt_edcnt = 0
radio_field_pos frequency_frequency = 0
radio_field_pos prefix0_ap0 = 0
radio_field_pos sfd_sfd = 0
radio_field_pos txpower_txpower = 0
radio_field_pos crcinit_crcinit = 0

abbrev pub radio_field_width : RadioField → ℕ
radio_field_width pcnf0_lflen = 4
radio_field_width pcnf0_s0len = 1
radio_field_width pcnf0_s1len = 4
radio_field_width pcnf0_s1incl = 1
radio_field_width pcnf0_cilen = 2
radio_field_width pcnf0_plen = 2
radio_field_width pcnf0_crcinc = 1
radio_field_width pcnf0_termlen = 2
radio_field_width pcnf1_statlen = 8
radio_field_width pcnf1_balen = 3
radio_field_width pcnf1_endian = 1
radio_field_width pcnf1_whiteen = 1
radio_field_width crccnf_len = 2
radio_field_width ccactrl_ccamode = 3
radio_field_width ccactrl_ccaedthres = 8
radio_field_width edcnt_edcnt = 21
radio_field_width frequency_frequency = 7
radio_field_width prefix0_ap0 = 8
radio_field_width sfd_sfd = 8
radio_field_width txpower_txpower = 8
radio_field_width crcinit_crcinit = 24

abbrev pub nrf52833 : Mdk
nrf52833 = record {
  timer_intenset_compare0_msk = 0x10000;
  timer_shorts_compare0_clear_msk = 0x1;
  timer_shorts_compare0_stop_msk = 0x100;
  timer_irqn = λ t. get_or (8 ∷ 9 ∷ 10 ∷ 26 ∷ 27 ∷ []) t 0;
  rtc_evten_compare0_msk = 0x10000;
  rtc_evten_ovrflw_msk = 0x2;
  rtc_irqn = λ t. get_or (11 ∷ 17 ∷ 36 ∷ []) t 0;
  clock_inten_hfclkstarted_msk = 0x1;
  clock_inten_lfclkstarted_msk = 0x2;
  clock_inten_done_msk = 0x8;
  clock_inten_ctto_msk = 0x10;
  clock_inten_ctstarted_msk = 0x400;
  clock_inten_ctstopped_msk = 0x800;
  clock_lfclksrc_src_msk = 0x3;
  clock_lfclkrun_status_msk = 0x1;
  clock_hfclkrun_status_msk = 0x1;
  clock_lfclkstat_state_msk = 0x10000;
  clock_lfclkstat_src_pos = 0;
  clock_hfclkstat_state_msk = 0x10000;
  clock_hfclkstat_src_xtal = 1;
  clock_hfclkstat_src_pos = 0;
  power_clock_irqn = 0;
  temp_irqn = 12;
  rng_irqn = 13;
  ecb_irqn = 14;
  ecb_intenset_endecb_msk = 0x1;
  ecb_intenset_errorecb_msk = 0x2;
  swi0_egu0_irqn = 20;
  nvmc_config_wen_msk = 0x3;
  nvmc_config_wen_wen = 1;
  nvmc_config_wen_een = 2;
  ccm_aar_irqn = 15;
  ccm_intenset_endksgen_msk = 1;
  ccm_intenset_endcrypt_msk = 2;
  ccm_shorts_endksgen_crypt_msk = 1;
  ccm_enable_enabled = 2;
  ccm_mode_mode_msk = 1;
  ccm_mode_mode_pos = 0;
  ccm_mode_mode_encryption = 0;
  aar_intenset_end_msk = 0x1;
  aar_intenclr_resolved_msk = 0x2;
  aar_intenclr_notresolved_msk = 0x4;
  gpio_pin_cnf_dir_msk = 0x1;
  gpio_pin_cnf_input_msk = 0x2;
  gpio_pin_cnf_input_pos = 1;
  gpio_pin_cnf_sense_msk = 0x30000;
  gpio_pin_cnf_sense_pos = 16;
  gpiote_irqn = 6;
  gpiote_intenclr_port_msk = 0x80000000;
  gpiote_intenclr_port_pos = 31;
  gpiote_config_mode_msk = 0x3;
  gpiote_config_mode_disabled = 0;
  gpiote_config_mode_event = 1;
  gpiote_config_mode_task = 3;
  gpiote_config_psel_msk = 0x1f00;
  gpiote_config_psel_pos = 8;
  gpiote_config_port_msk = 0x2000;
  gpiote_config_port_pos = 13;
  gpiote_config_polarity_msk = 0x30000;
  gpiote_config_polarity_pos = 16;
  gpiote_config_polarity_none = 0;
  gpiote_config_polarity_lo_to_hi = 1;
  gpiote_config_polarity_hi_to_lo = 2;
  gpiote_config_polarity_toggle = 3;
  gpiote_config_outinit_msk = 0x100000;
  gpiote_config_outinit_pos = 20;
  radio_irqn = 1;
  radio_mode_ble_1mbit = 3;
  radio_mode_ble_2mbit = 4;
  radio_field_msk = λ field. (2 ^ radio_field_width field - 1) * 2 ^ radio_field_pos field;
  radio_field_pos = radio_field_pos;
  radio_pcnf0_plen_8bit = 0;
  radio_pcnf0_plen_16bit = 1;
  radio_pcnf0_plen_32bitzero = 2;
  radio_pcnf0_s1incl_include = 1;
  radio_pcnf1_endian_little = 0;
  radio_crccnf_len_two = 2;
  radio_crccnf_len_three = 3;
  radio_pdustat_msk = 1;
  radio_ccactrl_ccamode_edmode = 0;
  radio_ccactrl_ccamode_carriermode = 1;
  radio_ccactrl_ccamode_carrierandedmode = 2;
  radio_ccactrl_ccamode_carrieroredmode = 3;
  radio_ccactrl_ccamode_edmodetest1 = 4;
  radio_mode_ble_lr125kbit = 5;
  radio_mode_ble_lr500kbit = 6;
  nfct_maxlen_msk = 0x1ff;
  nfct_maxlen_pos = 0;
  radio_mode_ieee802154_250kbit = 15;
  radio_modecnf0_ru_msk = 1;
  radio_shorts_msk = radio_short_bit;
  radio_intenset_msk = λ event.
      2
      ^ get_or
          (0 ∷ 1 ∷ 2 ∷ 3 ∷ 4 ∷ 5 ∷ 6 ∷ 7 ∷ 10 ∷ 12 ∷ 13 ∷ 14 ∷ 15 ∷ 16 ∷ 17 ∷ 18 ∷ 19 ∷ 20 ∷ 21 ∷ 22
            ∷ 23 ∷ 26 ∷ 27 ∷ 28 ∷ [])
          (event - 6) 31;
}
