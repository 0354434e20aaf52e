-- ===== src/Radio/Packet.antt =====
-- src/HW_models/NRF_RADIO_utils.c: the checks of the packet format, its lengths, and the copy of a packet
-- into the buffer to transmit. bs_trace_error, which ends the process, is none or false.
use ext_nrf52_hw_models.Common.{
  ℕ, ◌+◌, ◌-◌, ◌*◌, ◌/◌, ◌^◌, Bool, false, ◌&&◌, ◌||◌, Option, none, some, ltb, leb, ◌==◌,
  if◌then◌else◌, nonzero, bit_and, bit_or, u32, update, for_range,
}
use mathlib.Core.Option.{map}
use ext_nrf52_hw_models.Soc.{
  Radio, RadioField, pcnf0_lflen, pcnf0_s0len, pcnf0_s1len, pcnf0_s1incl, pcnf0_plen, pcnf0_crcinc,
  pcnf0_cilen, pcnf0_termlen, pcnf1_whiteen, pcnf1_endian, pcnf1_balen, pcnf1_statlen, crccnf_len,
}
use ext_nrf52_hw_models.Soc.Env.{Env}
use ext_nrf52_hw_models.Memory.{memcpy}

-- What nrfra_tx_copy_payload returns, and leaves in tx_buf and in PDUSTAT.
pub record TxCopy : Type 0 where
  pub payload_len : ℕ
  pub tx_buf : ℕ → ℕ
  pub pdustat : ℕ

module _ ⦃env : Env⦄ where
  -- (register & Msk) >> Pos
  abbrev pub field : RadioField → ℕ → ℕ
  field f register = bit_and register (env.mdk.radio_field_msk f) / 2 ^ env.mdk.radio_field_pos f

  -- value << Pos
  abbrev pub at_field : RadioField → ℕ → ℕ
  at_field f value = value * 2 ^ env.mdk.radio_field_pos f

  -- A C or of two fields' masks.
  infixl 35 ◌<|>◌
  abbrev pub ◌<|>◌ : ℕ → ℕ → ℕ
  a <|> b = bit_or a b

  unfoldable pub nrfra_check_crc_conf_ble : Radio → Bool
  nrfra_check_crc_conf_ble r =
      bit_and r.crccnf (env.mdk.radio_field_msk crccnf_len)
      == at_field crccnf_len env.mdk.radio_crccnf_len_three

  -- The fields of PCNF1 that are checked.
  abbrev pub pcnf1_checked : Radio → ℕ
  pcnf1_checked r =
      let msk = env.mdk.radio_field_msk in
      bit_and r.pcnf1
        (msk pcnf1_whiteen <|> msk pcnf1_endian <|> msk pcnf1_balen <|> msk pcnf1_statlen)

  unfoldable pub nrfra_check_pcnf1_ble : Radio → Bool
  nrfra_check_pcnf1_ble r = pcnf1_checked r == (
      at_field pcnf1_whiteen 1
      <|> at_field pcnf1_endian env.mdk.radio_pcnf1_endian_little
      <|> at_field pcnf1_balen 3
      <|> at_field pcnf1_statlen 0)

  -- PCNF0 as the two BLE modes have it, but for the preamble.
  abbrev pub has_ble_pcnf0 : (plen : ℕ) → Radio → Bool
  has_ble_pcnf0 plen r =
      let msk = env.mdk.radio_field_msk in
      bit_and r.pcnf0 (msk pcnf0_plen <|> msk pcnf0_s1len <|> msk pcnf0_s0len <|> msk pcnf0_lflen)
      == (at_field pcnf0_lflen 8
          <|> at_field pcnf0_s0len 1
          <|> at_field pcnf0_s1len 0
          <|> at_field pcnf0_plen plen)

  unfoldable pub nrfra_check_ble1m_conf : Radio → Bool
  nrfra_check_ble1m_conf r =
      has_ble_pcnf0 env.mdk.radio_pcnf0_plen_8bit r
      && (nrfra_check_pcnf1_ble r && nrfra_check_crc_conf_ble r)

  unfoldable pub nrfra_check_ble2m_conf : Radio → Bool
  nrfra_check_ble2m_conf r =
      has_ble_pcnf0 env.mdk.radio_pcnf0_plen_16bit r
      && (nrfra_check_pcnf1_ble r && nrfra_check_crc_conf_ble r)

  unfoldable pub nrfra_check_802154_conf : Radio → Bool
  nrfra_check_802154_conf r =
      let msk = env.mdk.radio_field_msk in
      let pcnf0_checked = bit_and r.pcnf0 (
        msk pcnf0_termlen
        <|> msk pcnf0_crcinc
        <|> msk pcnf0_plen
        <|> msk pcnf0_cilen
        <|> msk pcnf0_s1incl
        <|> msk pcnf0_s1len
        <|> msk pcnf0_s0len
        <|> msk pcnf0_lflen) in
      let pcnf0_check =
        msk pcnf0_crcinc
        <|> at_field pcnf0_plen env.mdk.radio_pcnf0_plen_32bitzero
        <|> at_field pcnf0_s1len 0
        <|> at_field pcnf0_s0len 0
        <|> at_field pcnf0_lflen 8 in
      let pcnf1_check =
        at_field pcnf1_whiteen 0
        <|> at_field pcnf1_endian env.mdk.radio_pcnf1_endian_little
        <|> at_field pcnf1_balen 0
        <|> at_field pcnf1_statlen 0 in
      (pcnf0_checked == pcnf0_check)
      && ((pcnf1_checked r == pcnf1_check)
          && (bit_and r.crccnf (msk crccnf_len)
              == at_field crccnf_len env.mdk.radio_crccnf_len_two))

  unfoldable pub nrfra_check_packet_conf : Radio → Bool
  nrfra_check_packet_conf r =
      if r.mode == env.mdk.radio_mode_ble_1mbit
      then nrfra_check_ble1m_conf r
      else if r.mode == env.mdk.radio_mode_ble_2mbit
      then nrfra_check_ble2m_conf r
      else if r.mode == env.mdk.radio_mode_ieee802154_250kbit
      then nrfra_check_802154_conf r
      else false

  unfoldable pub nrfra_get_crc_length : Radio → ℕ
  nrfra_get_crc_length r = field crccnf_len r.crccnf

  unfoldable pub nrfra_get_maxlen : Radio → ℕ
  nrfra_get_maxlen r = bit_and r.pcnf1 env.mdk.nfct_maxlen_msk / 2 ^ env.mdk.nfct_maxlen_pos

  -- LFLenB, in bytes.
  abbrev pub length_bytes : Radio → ℕ
  length_bytes r = (field pcnf0_lflen r.pcnf0 + 7) / 8

  unfoldable pub nrfra_get_payload_length : (buf : ℕ → ℕ) → Radio → Option ℕ
  unfolding nrfra_get_crc_length for_range
  nrfra_get_payload_length buf r =
      let s0_len = field pcnf0_s0len r.pcnf0 in
      let crc_len = nrfra_get_crc_length r in
      let payload_len =
        for_range (length_bytes r) 0 (λ i sum. u32 (sum + buf (s0_len + i) * 2 ^ (i * 8))) 0 in
      if nonzero (bit_and r.pcnf0 (env.mdk.radio_field_msk pcnf0_crcinc))
      then if leb crc_len payload_len then some (payload_len - crc_len) else none
      else some payload_len

  unfoldable pub nrfra_get_capped_payload_length : (buf : ℕ → ℕ) → Radio → Option ℕ
  unfolding nrfra_get_payload_length nrfra_get_maxlen
  nrfra_get_capped_payload_length buf r =
      map (λ len. if ltb len (nrfra_get_maxlen r) then len else nrfra_get_maxlen r)
        (nrfra_get_payload_length buf r)

  -- The bytes from the offset on, the least one first.
  abbrev pub crc_bytes : (count from : ℕ) → (rx_buf : ℕ → ℕ) → ℕ
  crc_bytes count from rx_buf = for_range count 0 (λ i crc. crc + rx_buf (from + i) * 2 ^ (i * 8)) 0

  unfoldable pub nrfra_get_rx_crc_value : (rx_buf : ℕ → ℕ) → (rx_packet_size : ℕ) → Radio → Option ℕ
  unfolding nrfra_get_capped_payload_length nrfra_get_crc_length
  nrfra_get_rx_crc_value rx_buf rx_packet_size r =
      let is_ble =
        r.mode == env.mdk.radio_mode_ble_1mbit || r.mode == env.mdk.radio_mode_ble_2mbit in
      let crc_len = nrfra_get_crc_length r in
      map
        (λ len.
          if is_ble && leb 5 rx_packet_size
          then crc_bytes crc_len (2 + len) rx_buf
          else if r.mode == env.mdk.radio_mode_ieee802154_250kbit && leb 3 rx_packet_size
          then crc_bytes crc_len (1 + len) rx_buf
          else 0)
        (nrfra_get_capped_payload_length rx_buf r)

  -- The end of nrfra_tx_copy_payload, where the payload's length is known.
  unfoldable pub copy_payload :
      (i s1_len s1_off : ℕ) → (ram tx_buf : ℕ → ℕ) → Radio → Option ℕ → Option TxCopy
  unfolding nrfra_get_maxlen
  copy_payload i s1_len s1_off ram tx_buf r none = none
  copy_payload i s1_len s1_off ram tx_buf r (some len) =
      if ltb (nrfra_get_maxlen r) len
      then none
      else some record {
        payload_len = len;
        tx_buf = memcpy (len + s1_len) i (λ k. ram (i + s1_off + k)) tx_buf;
        pdustat = 0;
      }

  -- ram is the memory from PACKETPTR on.
  unfoldable pub nrfra_tx_copy_payload : (ram tx_buf : ℕ → ℕ) → Radio → Option TxCopy
  nrfra_tx_copy_payload ram tx_buf r =
      let has_s0 = nonzero (field pcnf0_s0len r.pcnf0) in
      let s1_len = (field pcnf0_s1len r.pcnf0 + 7) / 8 in
      let s1_incl =
        nonzero (bit_and r.pcnf0 (at_field pcnf0_s1incl env.mdk.radio_pcnf0_s1incl_include)) in
      let s1_off = if s1_incl && s1_len == 0 then 1 else 0 in
      let from = if has_s0 then 1 else 0 in
      let with_s0 = if has_s0 then update tx_buf 0 (ram 0) else tx_buf in
      let with_length = memcpy (length_bytes r) from (λ k. ram (from + k)) with_s0 in
      copy_payload (from + length_bytes r) s1_len s1_off ram with_length r
        (nrfra_get_payload_length with_length r)
