-- ===== src/Rtc/Count.antt =====
-- src/HW_models/NRF_RTC.c: time in units of 1/512 microsecond, the count, and match times.
use ext_nrf52_hw_models.Common.{
  ℕ, zero, suc, ◌+◌, ◌*◌, ◌/◌, ◌%◌, ◌^◌, Bool, leb, ltb, ◌==◌, if◌then◌else◌, u32, u64, add64,
  sub64, update, for_range,
}
use ext_nrf52_hw_models.Soc.{Soc, Rtc, Rtcs}
use ext_nrf52_hw_models.Soc.Env.{Env}
use ext_nrf52_hw_models.Top.{nrf_hw_find_next_timer_to_trigger}

abbrev pub n_rtc : ℕ
n_rtc = 3

abbrev pub n_cc : ℕ
n_cc = 4

abbrev pub rtc_counter_mask : ℕ
rtc_counter_mask = 0xff_ffff

abbrev pub rtc_trigger_overflow_counter_value : ℕ
rtc_trigger_overflow_counter_value = 0xff_fff0

-- LF_CLOCK_PERIOD of NRF_CLOCK.h.
abbrev pub lf_clock_period : ℕ
lf_clock_period = 15625

unfoldable pub sub_us_time_to_us_time : ℕ → ℕ
sub_us_time_to_us_time sub_us_time =
    let us_time = sub_us_time / 2 ^ 9 in
    if sub_us_time % 2 ^ 9 == 0 then us_time else add64 us_time 1

unfoldable pub us_time_to_sub_us_time : ℕ → ℕ
us_time_to_sub_us_time us_time = u64 (us_time * 2 ^ 9)

-- get_hw_time_sub_us, at the time now. Its check that the time still fits is time_fits below.
unfoldable pub get_hw_time_sub_us : ℕ → ℕ
unfolding us_time_to_sub_us_time
get_hw_time_sub_us now = us_time_to_sub_us_time now

unfoldable pub get_last_lf_tick_time_sub_us : ℕ → ℕ → ℕ
unfolding get_hw_time_sub_us
get_last_lf_tick_time_sub_us now first_lf_tick =
    let lf_ticks = sub64 (get_hw_time_sub_us now) first_lf_tick / lf_clock_period in
    add64 (u64 (lf_ticks * lf_clock_period)) first_lf_tick

-- LF_CLOCK_PERIOD * (PRESCALER + 1); the sum is made in 32 bits.
abbrev pub tick_sub_us : Rtc → ℕ
tick_sub_us r = u64 (lf_clock_period * u32 (r.prescaler + 1))

unfoldable pub time_sub_us_to_counter : ℕ → Rtc → ℕ
time_sub_us_to_counter delta_sub_us r = delta_sub_us / tick_sub_us r

unfoldable pub counter_to_time_sub_us : ℕ → Rtc → ℕ
counter_to_time_sub_us counter r = u64 (counter * tick_sub_us r)

unfoldable pub time_of_1_counter_wrap_sub_us : Rtc → ℕ
unfolding counter_to_time_sub_us
time_of_1_counter_wrap_sub_us r = counter_to_time_sub_us (rtc_counter_mask + 1) r

-- while (next_match <= now) next_match += wrap
unfoldable pub advance_sub_us : ℕ → ℕ → ℕ → ℕ → ℕ
advance_sub_us zero now wrap next_match = next_match
advance_sub_us (suc fuel) now wrap next_match =
    let rest = advance_sub_us fuel now wrap (add64 next_match wrap) in
    if leb next_match now then rest else next_match

-- The match time before the loop.
unfoldable pub first_match_sub_us : ℕ → Rtc → ℕ
unfolding time_of_1_counter_wrap_sub_us
first_match_sub_us counter_match r =
    let counter_match_sub_us = counter_to_time_sub_us counter_match r in
    if ltb 0 r.start_t_sub_us
    then add64 r.start_t_sub_us counter_match_sub_us
    else if ltb r.start_t_negative_sub_us counter_match_sub_us
    then sub64 counter_match_sub_us r.start_t_negative_sub_us
    else sub64 (add64 (time_of_1_counter_wrap_sub_us r) counter_match_sub_us)
        r.start_t_negative_sub_us

-- What get_counter_match_time returns, and what it stores in *next_match_sub_us.
pub record MatchTime : Type 0 where
  pub us : ℕ
  pub sub_us : ℕ

module _ ⦃env : Env⦄ where
  -- The time is not beyond the 1142 years that the model can represent.
  unfoldable pub time_fits : ℕ → Bool
  unfolding sub_us_time_to_us_time
  time_fits now = leb now (sub_us_time_to_us_time env.time_never)

  unfoldable pub get_counter_match_time : ℕ → ℕ → Rtc → MatchTime
  unfolding advance_sub_us first_match_sub_us get_hw_time_sub_us sub_us_time_to_us_time
  get_counter_match_time now counter_match r =
      let now_sub_us = get_hw_time_sub_us now in
      let next_match_sub_us =
        advance_sub_us (now_sub_us + 1) now_sub_us (time_of_1_counter_wrap_sub_us r)
          (first_match_sub_us counter_match r) in
      if r.running
      then record { us = sub_us_time_to_us_time next_match_sub_us; sub_us = next_match_sub_us }
      else record { us = env.time_never; sub_us = env.time_never }

  unfoldable pub update_cc_timer : ℕ → ℕ → Rtc → Rtc
  unfolding get_counter_match_time
  update_cc_timer now cc r = record r {
    cc_timers = update r.cc_timers cc (get_counter_match_time now (r.cc cc) r).us;
  }

  unfoldable pub update_all_cc_timers : ℕ → Rtc → Rtc
  unfolding for_range update_cc_timer
  update_all_cc_timers now r = for_range n_cc 0 (update_cc_timer now) r

  unfoldable pub update_overflow_timer : ℕ → Rtc → Rtc
  unfolding get_counter_match_time
  update_overflow_timer now r =
      let next = get_counter_match_time now (rtc_counter_mask + 1) r in
      record r { overflow_timer = next.us; overflow_timer_sub_us = next.sub_us }

  -- The body of the loop of update_master_timer.
  unfoldable pub earliest_of : Rtc → ℕ → ℕ
  unfolding for_range
  earliest_of r least =
      let least_cc =
        for_range n_cc 0 (λ cc least. if ltb (r.cc_timers cc) least then r.cc_timers cc else least)
          least in
      if r.running
      then if ltb r.overflow_timer least_cc then r.overflow_timer else least_cc
      else least

  unfoldable pub earliest_event : Rtcs → ℕ
  unfolding for_range earliest_of
  earliest_event rs =
      for_range n_rtc 0 (λ rtc least. earliest_of (rs.inst rtc) least) env.time_never

  unfoldable pub update_master_timer : Soc → Soc
  unfolding earliest_event
  update_master_timer s =
      nrf_hw_find_next_timer_to_trigger
        (record s { rtcs = record (s.rtcs) { timer = earliest_event s.rtcs } })
