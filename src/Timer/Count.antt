-- ===== src/Timer/Count.antt =====
-- src/HW_models/NRF_TIMER.c: conversions between time and count, and when a compare register will
-- next match.
use ext_nrf52_hw_models.Common.{
  ℕ, zero, suc, ◌+◌, ◌*◌, ◌/◌, ◌^◌, Bool, ◌&&◌, [], ◌∷◌, leb, ltb, ◌==◌, if◌then◌else◌, u32, u64,
  add64, get_or, update, for_range,
}
use ext_nrf52_hw_models.Soc.{Soc, Tim, Timers}
use ext_nrf52_hw_models.Soc.Env.{Env}
use ext_nrf52_hw_models.Top.{nrf_hw_find_next_timer_to_trigger}

abbrev pub n_timers : ℕ
n_timers = 5

-- Timer_n_CCs
abbrev pub timer_n_ccs : ℕ → ℕ
timer_n_ccs t = get_or (4 ∷ 4 ∷ 4 ∷ 6 ∷ 6 ∷ []) t 0

-- The prescaler shifts by less than 64.
unfoldable pub time_to_counter : ℕ → Tim → ℕ
time_to_counter delta m = u32 (u64 (delta * 2 ^ 4) / 2 ^ m.prescaler)

unfoldable pub counter_to_time : ℕ → Tim → ℕ
counter_to_time counter m = u64 (counter * 2 ^ m.prescaler) / 2 ^ 4

unfoldable pub mask_from_bitmode : Tim → ℕ
mask_from_bitmode m =
    if m.bitmode == 0
    then 0xffff
    else if m.bitmode == 1
    then 0xff
    else if m.bitmode == 2
    then 0xff_ffff
    else 0xffff_ffff

unfoldable pub time_of_1_counter_wrap : Tim → ℕ
unfolding counter_to_time mask_from_bitmode
time_of_1_counter_wrap m = counter_to_time (mask_from_bitmode m + 1) m

-- Running in timer mode.
abbrev pub is_timing : Tim → Bool
is_timing m = m.running && m.mode == 0

-- while (next_match <= now) next_match += wrap
unfoldable pub advance : ℕ → ℕ → ℕ → ℕ → ℕ
advance zero now wrap next_match = next_match
advance (suc fuel) now wrap next_match =
    let rest = advance fuel now wrap (add64 next_match wrap) in
    if leb next_match now then rest else next_match

module _ ⦃env : Env⦄ where
  -- A wrap of the counter takes a microsecond or more, so the loop ends within now + 1 rounds.
  unfoldable pub update_cc_timer : ℕ → ℕ → Tim → Tim
  unfolding advance time_of_1_counter_wrap
  update_cc_timer now cc m =
      if is_timing m
      then record m {
        cc_timers = update m.cc_timers cc (
            advance (now + 1) now (time_of_1_counter_wrap m)
              (add64 m.start_t (counter_to_time (m.cc cc) m)));
      }
      else record m { cc_timers = update m.cc_timers cc env.time_never }

  unfoldable pub update_all_cc_timers : ℕ → ℕ → Tim → Tim
  unfolding for_range update_cc_timer
  update_all_cc_timers now n m = for_range n 0 (update_cc_timer now) m

  -- CC_timers[t][cc] = TIME_NEVER for each cc.
  unfoldable pub clear_cc_timers : ℕ → Tim → Tim
  unfolding for_range
  clear_cc_timers n m =
      for_range n 0 (λ cc m. record m { cc_timers = update m.cc_timers cc env.time_never }) m

  -- The inner loop of update_master_timer, over the channels of one instance.
  unfoldable pub earliest_cc : ℕ → Tim → ℕ → ℕ
  unfolding for_range
  earliest_cc n m least =
      for_range n 0 (λ cc least. if ltb (m.cc_timers cc) least then m.cc_timers cc else least) least

  unfoldable pub earliest_match : Timers → ℕ
  unfolding for_range earliest_cc
  earliest_match ts =
      for_range n_timers 0
        (λ t least.
          if is_timing (ts.inst t) then earliest_cc (timer_n_ccs t) (ts.inst t) least else least)
        env.time_never

  unfoldable pub update_master_timer : Soc → Soc
  unfolding earliest_match
  update_master_timer s =
      nrf_hw_find_next_timer_to_trigger
        (record s { timers = record (s.timers) { timer = earliest_match s.timers } })
