-- ===== src/Radio/Tasks.antt =====
-- src/HW_models/NRF_RADIO_bitcounter.c but for its timer, and of NRF_RADIO.c the RSSI tasks and the
-- interrupt enables.
use ext_nrf52_hw_models.Common.{
  ℕ, ◌*◌, ◌/◌, true, false, not, ltb, ◌==◌, if◌then◌else◌, nonzero, bit_or, clear32, add64,
}
use ext_nrf52_hw_models.Soc.{Soc, Radio}
use ext_nrf52_hw_models.Soc.Env.{Env}
use ext_nrf52_hw_models.Top.{nrf_hw_find_next_timer_to_trigger}

abbrev pub with_radio : Radio → Soc → Soc
with_radio r s = record s { radio = r }

-- BCC / nrf_radio_get_bpus(), as the division of doubles is cut to a time.
abbrev pub bit_time : Radio → ℕ
bit_time r = 4 * r.bcc / r.quarter_bits_per_us

unfoldable pub nrf_radio_tasks_bcstart : Soc → Soc
nrf_radio_tasks_bcstart s =
    let r = s.radio in
    let on = record r { bit_counter_running = true; time_bitcounter_started = s.now } in
    if r.bit_counter_running
    then s
    else nrf_hw_find_next_timer_to_trigger
        (record (with_radio on s) { timer_radio_bitcounter = add64 s.now (bit_time r) })

unfoldable pub nrf_radio_tasks_rssistart : Soc → Soc
nrf_radio_tasks_rssistart s = with_radio (record (s.radio) { rssi_sampling_on = true }) s

unfoldable pub nrf_radio_tasks_rssistop : Soc → Soc
nrf_radio_tasks_rssistop s = with_radio (record (s.radio) { rssi_sampling_on = false }) s

unfoldable pub nrf_radio_regw_sideeffects_intenset : Radio → Radio
nrf_radio_regw_sideeffects_intenset r =
    let enabled = bit_or r.inten r.intenset in
    if nonzero r.intenset then record r { inten = enabled; intenset = enabled } else r

unfoldable pub nrf_radio_regw_sideeffects_intenclr : Radio → Radio
nrf_radio_regw_sideeffects_intenclr r =
    let enabled = clear32 r.inten r.intenclr in
    if nonzero r.intenclr then record r { inten = enabled; intenset = enabled; intenclr = 0 } else r

module _ ⦃env : Env⦄ where
  unfoldable pub nrf_radio_bitcounter_reset : Soc → Soc
  nrf_radio_bitcounter_reset s =
      record (with_radio (record (s.radio) { bit_counter_running = false }) s) {
        timer_radio_bitcounter = env.time_never;
      }

  unfoldable pub nrf_radio_stop_bit_counter : Soc → Soc
  nrf_radio_stop_bit_counter s =
      let off = with_radio (record (s.radio) { bit_counter_running = false }) s in
      if not s.radio.bit_counter_running
      then s
      else if not (s.timer_radio_bitcounter == env.time_never)
      then nrf_hw_find_next_timer_to_trigger
          (record off { timer_radio_bitcounter = env.time_never })
      else off

  unfoldable pub nrf_radio_tasks_bcstop : Soc → Soc
  nrf_radio_tasks_bcstop s = nrf_radio_stop_bit_counter s

  unfoldable pub nrf_radio_regw_sideeffects_bcc : Soc → Soc
  nrf_radio_regw_sideeffects_bcc s =
      let match_time = add64 s.radio.time_bitcounter_started (bit_time s.radio) in
      if not s.radio.bit_counter_running
      then s
      else nrf_hw_find_next_timer_to_trigger (record s {
        timer_radio_bitcounter = if ltb match_time s.now then env.time_never else match_time;
      })
