-- ===== src/Examples/Setup/Lines.antt =====
-- The pins, the PPI, the address resolver and the radio, out of reset.
use ext_nrf52_hw_models.Common.{false, none, []}
use ext_nrf52_hw_models.Soc.{
  Ccm, Abort, RadioFsm, rad_disabled, sub_state_invalid, tifs_disable, mod_other, rx_nosync,
  no_pending_abort_reeval,
}
use ext_nrf52_hw_models.Soc.{Radio, Port, Gpio, GpioteChannel, Gpiote, Ppi, Aar}
use ext_nrf52_hw_models.Examples.Setup.Bench.{never}

-- Out of reset: every input is disconnected.
abbrev pub idle_port : Port
idle_port = record {
  out = 0;
  outset = 0;
  outclr = 0;
  in_reg = 0;
  dir = 0;
  dirset = 0;
  dirclr = 0;
  latch = 0;
  detectmode = 0;
  pin_cnf = λ n. 2;
  io_level = 0;
  detect = 0;
  ldetect = 0;
  detect_signal = false;
  input_mask = 0xffff_ffff;
  sense_mask = 0;
  sense_inv = 0;
  out_override = 0;
  external_out = 0;
  input_override = 0;
  input_override_connected = 0;
  dir_override = 0;
  dir_override_set = 0;
  per_intoggle = λ n. false;
  o_level = 0;
}

abbrev pub idle_gpio : Gpio
idle_gpio = record {
  port = λ p. idle_port;
  test_intoggle = false;
  short_port = λ p n i. 255;
  short_pin = λ p n i. 255;
  output_file_open = false;
  output_file = [];
  input_file_open = false;
  input_file = [];
  input_port = 0;
  input_pin = 0;
  input_level = false;
}

abbrev pub idle_channel : GpioteChannel
idle_channel = record { mode = 0; port = 0; pin = 0; polarity = 0; level = false }

abbrev pub idle_gpiote : Gpiote
idle_gpiote = record {
  inten = 0;
  int_line = false;
  channel = λ n. idle_channel;
  events_in = λ n. 0;
  events_port = 0;
  tasks_out = λ n. 0;
  tasks_set = λ n. 0;
  tasks_clr = λ n. 0;
  intenset = 0;
  intenclr = 0;
  config = λ n. 0;
}

-- Nothing is routed.
abbrev pub idle_ppi : Ppi
idle_ppi = record {
  chen = 0;
  chenset = 0;
  chenclr = 0;
  eep = λ i. 0;
  tep = λ i. 0;
  fork_tep = λ i. 0;
  chg = λ i. 0;
  tasks_chg_en = λ i. 0;
  tasks_chg_dis = λ i. 0;
  evt_to_ch = λ i. 0;
  tep_f = λ i. none;
  fork_tep_f = λ i. none;
  queue = [];
}

abbrev pub idle_aar : Aar
idle_aar = record {
  running = false;
  matching_irk = none;
  inten = 0;
  intenset = 0;
  intenclr = 0;
  enable = 0;
  nirk = 0;
  irkptr = 0;
  addrptr = 0;
  status = 0;
  events_end = 0;
  events_resolved = 0;
  events_notresolved = 0;
  tasks_start = 0;
  tasks_stop = 0;
}

abbrev pub no_abort : Abort
no_abort = record { abort_time = never; recheck_time = never }

abbrev pub idle_fsm : RadioFsm
idle_fsm = record {
  radio_state = rad_disabled;
  radio_sub_state = sub_state_invalid;
  tifs_state = tifs_disable;
  tifs_to_tx_not_rx = false;
  timer_tifs = never;
  from_hw_tifs = false;
  rx_status = record {
    address_end_time = 0;
    payload_end_time = 0;
    crc_end_time = 0;
    crc_duration = 0;
    rx_req = record {
      start_time = 0;
      scan_duration = 0;
      forced_packet_duration = 0;
      error_calc_rate = 0;
      antenna_gain = 0;
      header_duration = 0;
      pream_and_addr_duration = 0;
      header_threshold = 0;
      sync_threshold = 0;
      acceptable_pre_truncation = 0;
      n_addr = 0;
      address = 0;
      abort = no_abort;
      modulation = mod_other;
      center_freq = 0;
      coding_rate = 0;
      resp_type = 0;
    };
    rx_resp = record {
      status = rx_nosync;
      rx_time_stamp = 0;
      end_time = 0;
      packet_size = 0;
      rssi = 0;
    };
    crc_ok = false;
    packet_rejected = false;
    s1_offset = 0;
  };
  tx_status = record {
    address_end_time = 0;
    payload_end_time = 0;
    crc_end_time = 0;
    tx_req = record {
      start_tx_time = 0;
      end_tx_time = 0;
      start_packet_time = 0;
      end_packet_time = 0;
      phy_address = 0;
      abort = no_abort;
      modulation = mod_other;
      center_freq = 0;
      power_level = 0;
      packet_size = 0;
      coding_rate = 0;
    };
    tx_resp_end_time = 0;
  };
  cca_status = record {
    cca_end_time = 0;
    cca_req = record {
      start_time = 0;
      scan_duration = 0;
      scan_period = 0;
      antenna_gain = 0;
      center_freq = 0;
      modulation = mod_other;
      rssi_threshold = 0;
      mod_threshold = 0;
      stop_when_found = 0;
      abort = no_abort;
    };
    cca_resp = record { end_time = 0; rssi_max = 0; rssi_overthreshold = false; mod_found = false };
    is_busy = false;
    cca_not_ed = false;
  };
  next_recheck_time = 0;
  abort_fsm_state = no_pending_abort_reeval;
  aborting_set = false;
  tx_buf = λ k. 0;
  rx_buf = λ k. 0;
  radio_on = false;
}

abbrev pub idle_radio : Radio
idle_radio = record {
  mode = 0;
  modecnf0 = 0;
  shorts = 0;
  pcnf0 = 0;
  pcnf1 = 0;
  crccnf = 0;
  packetptr = 0;
  inten = 0;
  intenset = 0;
  intenclr = 0;
  bcc = 0;
  state = 0;
  crcstatus = 0;
  rxcrc = 0;
  pdustat = 0;
  rxmatch = 0;
  dacnf = 0;
  dab = λ i. 0;
  dap = λ i. 0;
  dai = 0;
  rssisample = 0;
  edsample = 0;
  ccactrl = 0x52d0000;
  edcnt = 0;
  tifs = 0;
  prefix0 = 0;
  base0 = 0;
  sfd = 0xa7;
  frequency = 2;
  txpower = 0;
  crcinit = 0;
  power = 1;
  events = λ e. 0;
  tasks = λ t. 0;
  rssi_sampling_on = false;
  quarter_bits_per_us = 4;
  bit_counter_running = false;
  time_bitcounter_started = never;
  fsm = idle_fsm;
}

abbrev pub idle_ccm : Ccm
idle_ccm = record {
  inten = 0;
  decryption_ongoing = false;
  intenset = 0;
  intenclr = 0;
  enable = 0;
  mode = 1;
  shorts = 0;
  cnfptr = 0;
  inptr = 0;
  outptr = 0;
  headermask = 0xe3;
  maxpacketsize = 0xfb;
  micstatus = 0;
  events_endksgen = 0;
  events_endcrypt = 0;
  tasks_ksgen = 0;
  tasks_crypt = 0;
  tasks_stop = 0;
}
