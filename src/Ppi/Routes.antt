-- ===== src/Ppi/Routes.antt =====
-- src/HW_models/NRF_PPI.c: the routing table, as the register writes build it, and the channel masks.
use ext_nrf52_hw_models.Common.{
  ℕ, zero, suc, ◌+◌, ◌^◌, Bool, true, false, Option, none, some, List, [], ◌∷◌, ◌++◌, ltb, ◌==◌,
  if◌then◌else◌, nonzero, bit_or, clear32, update, for_range,
}
use ext_nrf52_hw_models.Soc.{Soc, Ppi}
use ext_nrf52_hw_models.Soc.Env.{Env}

abbrev pub number_ppi_events : ℕ
number_ppi_events = 187

abbrev pub number_ppi_channels : ℕ
number_ppi_channels = 32

abbrev pub with_ppi : Ppi → Soc → Soc
with_ppi p s = record s { ppi = p }

-- count events in the order of ppi_event_types_t.
abbrev pub events_from : (count first : ℕ) → List ℕ
events_from zero first = []
events_from (suc count) first = first ∷ events_from count (first + 1)

-- The rows of ppi_events_table: all events but TICK of the RTCs, and those of the RNG, the ECB and the
-- AAR. First those up to RTC1, then those of the EGU and what follows it.
abbrev pub events_up_to_rtc1 : List ℕ
events_up_to_rtc1 = events_from 51 0 ++ events_from 6 52 ++ events_from 3 64 ++ events_from 5 68

abbrev pub events_from_egu : List ℕ
events_from_egu = events_from 108 73 ++ events_from 5 182

unfoldable pub ppi_events_table : List ℕ
ppi_events_table = events_up_to_rtc1 ++ events_from_egu

-- The rows of ppi_tasks_table.
abbrev pub n_task_rows : ℕ
n_task_rows = 200

unfoldable pub nrf_ppi_task_chg_endis : ℕ → Bool → Soc → Soc
nrf_ppi_task_chg_endis groupnbr true s =
    with_ppi (record (s.ppi) { chen = bit_or s.ppi.chen (s.ppi.chg groupnbr) }) s
nrf_ppi_task_chg_endis groupnbr false s =
    with_ppi (record (s.ppi) { chen = clear32 s.ppi.chen (s.ppi.chg groupnbr) }) s

unfoldable pub nrf_ppi_regw_sideeffects_chenset : Ppi → Ppi
nrf_ppi_regw_sideeffects_chenset p =
    if nonzero p.chenset then record p { chen = bit_or p.chen p.chenset; chenset = 0 } else p

unfoldable pub nrf_ppi_regw_sideeffects_chenclr : Ppi → Ppi
nrf_ppi_regw_sideeffects_chenclr p =
    if nonzero p.chenclr then record p { chen = clear32 p.chen p.chenclr; chenclr = 0 } else p

unfoldable pub nrf_ppi_regw_sideeffects_chen : Ppi → Ppi
nrf_ppi_regw_sideeffects_chen p =
    nrf_ppi_regw_sideeffects_chenclr (nrf_ppi_regw_sideeffects_chenset p)

unfoldable pub nrf_ppi_regw_sideeffects_tasks_chg_dis : ℕ → Soc → Soc
nrf_ppi_regw_sideeffects_tasks_chg_dis i s =
    let p = s.ppi in
    if nonzero (p.tasks_chg_dis i)
    then nrf_ppi_task_chg_endis i false
        (with_ppi (record p { tasks_chg_dis = update p.tasks_chg_dis i 0 }) s)
    else s

unfoldable pub nrf_ppi_regw_sideeffects_tasks_chg_en : ℕ → Soc → Soc
nrf_ppi_regw_sideeffects_tasks_chg_en i s =
    let p = s.ppi in
    if nonzero (p.tasks_chg_en i)
    then nrf_ppi_task_chg_endis i true
        (with_ppi (record p { tasks_chg_en = update p.tasks_chg_en i 0 }) s)
    else s

unfoldable pub nrf_ppi_taskw_sideeffects : Soc → Soc
nrf_ppi_taskw_sideeffects s =
    for_range 6 0 nrf_ppi_regw_sideeffects_tasks_chg_en
      (for_range 6 0 nrf_ppi_regw_sideeffects_tasks_chg_dis s)

-- ppi_evt_to_ch[event].channels_mask |= 1 << ch, and ppi_ch_tasks[ch].tep_f = task.
unfoldable pub fix_route : (ch event task : ℕ) → Ppi → Ppi
fix_route ch event task p = record p {
  evt_to_ch = update p.evt_to_ch event (bit_or (p.evt_to_ch event) (2 ^ ch));
  tep_f = update p.tep_f ch (some task);
}

-- The tasks are TXEN 7, RXEN 8, DISABLE 11, AAR START 90, KSGEN 200, CRYPT 91, and of TIMER0 CAPTURE[1]
-- 45, CAPTURE[2] 46, CLEAR 48 and START 50.
unfoldable pub set_fixed_channel_routes : Ppi → Ppi
set_fixed_channel_routes p = fix_route 31 53 50 (
    fix_route 30 53 48 (
      fix_route 29 53 8 (
        fix_route 28 53 7 (
          fix_route 27 9 46 (
            fix_route 26 7 45 (
              fix_route 25 7 91 (
                fix_route 24 6 200 (
                  fix_route 23 14 90
                    (fix_route 22 40 11 (fix_route 21 39 8 (fix_route 20 39 7 p)))))))))))

-- The queue is not emptied, only its table allocated.
unfoldable pub nrf_ppi_init : Ppi → Ppi
nrf_ppi_init p = set_fixed_channel_routes (record {
  chen = 0;
  chenset = 0;
  chenclr = 0;
  eep = λ i. 0;
  tep = λ i. 0;
  fork_tep = λ i. 0;
  chg = λ i. 0;
  tasks_chg_en = λ i. 0;
  tasks_chg_dis = λ i. 0;
  evt_to_ch = λ i. 0;
  tep_f = λ i. none;
  fork_tep_f = λ i. none;
  queue = p.queue;
})

-- ppi_evt_to_ch[event].channels_mask |= 1 << ch_nbr where an event was found.
unfoldable pub feed : ℕ → Option ℕ → (ℕ → ℕ) → ℕ → ℕ
feed ch_nbr none masks = masks
feed ch_nbr (some event) masks = update masks event (bit_or (masks event) (2 ^ ch_nbr))

-- The masks of all events without a channel.
abbrev pub without_channel : ℕ → Ppi → ℕ → ℕ
without_channel ch_nbr p event =
    if ltb event number_ppi_events
    then clear32 (p.evt_to_ch event) (2 ^ ch_nbr)
    else p.evt_to_ch event

module _ ⦃env : Env⦄ where
  -- The search of find_task through the rows from row on, of which left remain.
  unfoldable pub find_task : (left row : ℕ) → ℕ → Option ℕ
  find_task zero row tep = none
  find_task (suc left) row tep =
      let rest = find_task left (row + 1) tep in if env.task_addr row == tep then some row else rest

  -- The search of nrf_ppi_regw_sideeffects_EEP through the rows of ppi_events_table.
  unfoldable pub find_event : List ℕ → ℕ → Option ℕ
  find_event [] eep = none
  find_event (event ∷ rows) eep =
      let rest = find_event rows eep in if env.event_addr event == eep then some event else rest

  unfoldable pub nrf_ppi_regw_sideeffects_eep : ℕ → Ppi → Ppi
  nrf_ppi_regw_sideeffects_eep ch_nbr p =
      let event =
        if ltb ch_nbr 20
        then if nonzero (p.eep ch_nbr) then find_event ppi_events_table (p.eep ch_nbr) else none
        else none in
      record p { evt_to_ch = feed ch_nbr event (without_channel ch_nbr p) }

  -- The row of the task at an address; the address 0 is NULL.
  abbrev pub task_at : ℕ → Option ℕ
  task_at tep = if nonzero tep then find_task n_task_rows 0 tep else none

  unfoldable pub nrf_ppi_regw_sideeffects_tep : ℕ → Ppi → Ppi
  nrf_ppi_regw_sideeffects_tep ch_nbr p =
      if ltb ch_nbr 20
      then record p { tep_f = update p.tep_f ch_nbr (task_at (p.tep ch_nbr)) }
      else p

  unfoldable pub nrf_ppi_regw_sideeffects_fork_tep : ℕ → Ppi → Ppi
  nrf_ppi_regw_sideeffects_fork_tep ch_nbr p = record p {
    fork_tep_f = update p.fork_tep_f ch_nbr (task_at (p.fork_tep ch_nbr));
  }

  -- The body of the loop of nrf_ppi_regw_sideeffects.
  unfoldable pub reroute : ℕ → Ppi → Ppi
  reroute ch_nbr p =
      let routed =
        if ltb ch_nbr 20
        then nrf_ppi_regw_sideeffects_tep ch_nbr (nrf_ppi_regw_sideeffects_eep ch_nbr p)
        else p in
      nrf_ppi_regw_sideeffects_fork_tep ch_nbr routed

  unfoldable pub nrf_ppi_regw_sideeffects : Ppi → Ppi
  nrf_ppi_regw_sideeffects p = nrf_ppi_regw_sideeffects_chen (for_range 32 0 reroute p)
