-- ===== src/Examples/Setup/Bench.antt =====
-- Callbacks that do nothing.
use ext_nrf52_hw_models.Common.{ℕ, ◌+◌, ◌*◌}
use ext_nrf52_hw_models.Common.Int.{negsuc}
use ext_nrf52_hw_models.Soc.{abortreeval, tx_end, rxv2_end, cca_end}
use ext_nrf52_hw_models.Soc.Env.{Env}
use ext_nrf52_hw_models.Examples.Setup.Constants.{nrf52833}

abbrev pub never : ℕ
never = 0xffff_ffff_ffff_ffff

abbrev pub bench : Env
bench = record {
  mdk = nrf52833;
  time_never = never;
  posix_interrupt_raised = λ s. s;
  posix_irq_handler_im_from_sw = λ s. s;
  bst_tick = λ time s. s;
  bs_random_uint32 = λ s. s.now;
  bs_random_uniform_ri_plus_one = λ s. 1;
  tm_abs_time_to_hw_time = λ time. time;
  blecrypt_aes_128 = λ key plain i. key i;
  blecrypt_packet_encrypt = λ header length payload sk nonce. payload;
  blecrypt_packet_decrypt = λ header length payload sk nonce no_mic. (1, payload);
  tm_get_abs_time = λ s. s.now;
  nrf_ppi_event = λ event s. s;
  task_addr = λ row. 0x40000000 + 4 * row;
  event_addr = λ event. 0x50000000 + 4 * event;
  test_intoggle_callback = λ port pin level s. s;
  tm_get_next_timer_abstime = λ s. s.main_timer;
  tm_update_last_phy_sync_time = λ time s. s;
  phy_time_from_dev = λ time. time;
  dev_time_from_phy = λ time. time;
  p2g4_freq_from_d = λ offset. offset;
  p2g4_power_from_d = λ level. 0;
  p2g4_rssi_value_from_dbm = λ level. 0;
  p2g4_rssi_value_to_dbm = λ value. negsuc value;
  dbm_scale = 1;
  p2g4_dev_req_txv2 =
      λ request packet s. record { ret = abortreeval; end_time = request.end_tx_time };
  p2g4_dev_provide_new_tx_abort = λ abort s. record { ret = tx_end; end_time = s.now };
  p2g4_dev_req_rxv2 = λ request s. record {
    ret = abortreeval;
    resp = s.radio.fsm.rx_status.rx_resp;
    packet = s.radio.fsm.rx_buf;
  };
  p2g4_dev_provide_new_rxv2_abort = λ abort s. record {
    ret = abortreeval;
    resp = s.radio.fsm.rx_status.rx_resp;
    packet = s.radio.fsm.rx_buf;
  };
  p2g4_dev_rxv2_cont_after_addr = λ continue abort s. record {
    ret = rxv2_end;
    resp = s.radio.fsm.rx_status.rx_resp;
    packet = s.radio.fsm.rx_buf;
  };
  p2g4_dev_req_cca = λ request s. record { ret = cca_end; resp = s.radio.fsm.cca_status.cca_resp };
  p2g4_dev_provide_new_cca_abort =
      λ abort s. record { ret = cca_end; resp = s.radio.fsm.cca_status.cca_resp };
}
