-- ===== src/Radio/Abort.antt =====
-- src/HW_models/NRF_RADIO.c: the timers, and the state machine that aborts a transaction with the physical
-- layer.
use ext_nrf52_hw_models.Common.{ℕ, Bool, true, false, ◌==◌, if◌then◌else◌}
use ext_nrf52_hw_models.Soc.{
  Soc, RadioFsm, RadioState, rad_disabled, rad_rxru, rad_rxidle, rad_rx, rad_rxdisable, rad_txru,
  rad_txidle, rad_txstarting, rad_tx, rad_txdisable, rad_cca_ed, SubState, sub_state_invalid,
  rx_wait_for_address_end, AbortState, no_pending_abort_reeval, Abort,
}
use ext_nrf52_hw_models.Soc.Env.{Env}
use ext_nrf52_hw_models.Top.{nrf_hw_find_next_timer_to_trigger}
use ext_nrf52_hw_models.Radio.Tasks.{with_radio}
use ext_nrf52_hw_models.Radio.Requests.{hwll_phy_time_from_dev}

abbrev pub with_fsm : RadioFsm → Soc → Soc
with_fsm f s = with_radio (record (s.radio) { fsm = f }) s

-- The values of the enumeration, which STATE takes.
abbrev pub state_value : RadioState → ℕ
state_value rad_disabled = 0
state_value rad_rxru = 1
state_value rad_rxidle = 2
state_value rad_rx = 3
state_value rad_rxdisable = 4
state_value rad_txru = 9
state_value rad_txidle = 10
state_value rad_txstarting = 11
state_value rad_tx = 12
state_value rad_txdisable = 13
state_value rad_cca_ed = 14

abbrev pub same_state : RadioState → RadioState → Bool
same_state a b = state_value a == state_value b

-- radio_state and STATE are set to the same state.
abbrev pub enter : RadioState → Soc → Soc
enter state s =
    with_radio
      (record (s.radio) {
        state = state_value state;
        fsm = record (s.radio.fsm) { radio_state = state };
      })
      s

abbrev pub in_state : RadioState → Soc → Bool
in_state state s = same_state s.radio.fsm.radio_state state

abbrev pub is_rx_wait_for_address_end : SubState → Bool
is_rx_wait_for_address_end rx_wait_for_address_end = true
is_rx_wait_for_address_end _ = false

abbrev pub is_pending : AbortState → Bool
is_pending no_pending_abort_reeval = false
is_pending _ = true

unfoldable pub nrfra_set_timer_radio : ℕ → Soc → Soc
nrfra_set_timer_radio t s = nrf_hw_find_next_timer_to_trigger (record s { timer_radio = t })

unfoldable pub nrfra_set_timer_abort_reeval : ℕ → Soc → Soc
nrfra_set_timer_abort_reeval t s =
    nrf_hw_find_next_timer_to_trigger (record s { timer_radio_abort_reeval = t })

-- The packet is rejected at once where the physical layer waits for that answer.
unfoldable pub abort_if_needed : Soc → Soc
abort_if_needed s =
    let f = s.radio.fsm in
    let sub =
      if is_rx_wait_for_address_end f.radio_sub_state
      then sub_state_invalid
      else f.radio_sub_state in
    with_fsm
      (record f {
        aborting_set = if is_pending f.abort_fsm_state then true else f.aborting_set;
        radio_sub_state = sub;
      })
      s

module _ ⦃env : Env⦄ where
  -- The structure that update_abort_struct fills.
  abbrev pub new_abort : Soc → Abort
  new_abort s = record {
    recheck_time = hwll_phy_time_from_dev (env.tm_get_next_timer_abstime s);
    abort_time =
        if s.radio.fsm.aborting_set
        then hwll_phy_time_from_dev (env.tm_get_abs_time s)
        else env.time_never;
  }

  -- And what it does to the variables.
  unfoldable pub update_abort_struct : Soc → Soc
  update_abort_struct s =
      with_fsm
        (record (s.radio.fsm) {
          next_recheck_time = env.tm_get_next_timer_abstime s;
          aborting_set = false;
        })
        s
