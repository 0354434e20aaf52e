-- ===== src/Radio/TaskRegisters.antt =====
-- src/HW_models/NRF_RADIO_tasks_regs.c: the registers of the tasks.
use ext_nrf52_hw_models.Common.{ℕ, if◌then◌else◌, nonzero, update}
use ext_nrf52_hw_models.Soc.{
  Soc, RadioTask, txen, rxen, start, stop, disable, rssistart, rssistop, bcstart, bcstop, edstart,
  edstop, ccastart, ccastop,
}
use ext_nrf52_hw_models.Soc.Env.{Env}
use ext_nrf52_hw_models.Radio.Tasks.{
  with_radio, nrf_radio_tasks_bcstart, nrf_radio_tasks_bcstop, nrf_radio_tasks_rssistart,
  nrf_radio_tasks_rssistop,
}
use ext_nrf52_hw_models.Radio.Control.{
  nrf_radio_tasks_txen, nrf_radio_tasks_rxen, nrf_radio_tasks_start, nrf_radio_tasks_stop,
  nrf_radio_tasks_ccastart, nrf_radio_tasks_edstart,
}
use ext_nrf52_hw_models.Radio.Events.{nrf_radio_tasks_disable}
use ext_nrf52_hw_models.Radio.Machine.{nrf_radio_tasks_ccastop, nrf_radio_tasks_edstop}

-- The row of a task in ppi_tasks_table, from the first of the radio on.
abbrev pub radio_row : RadioTask → ℕ
radio_row txen = 0
radio_row rxen = 1
radio_row start = 2
radio_row stop = 3
radio_row disable = 4
radio_row rssistart = 5
radio_row rssistop = 6
radio_row bcstart = 7
radio_row bcstop = 8
radio_row edstart = 9
radio_row edstop = 10
radio_row ccastart = 11
radio_row ccastop = 12

module _ ⦃env : Env⦄ where
  -- nrf_radio_tasks_*
  unfoldable pub nrf_radio_task : RadioTask → Soc → Soc
  nrf_radio_task txen s = nrf_radio_tasks_txen s
  nrf_radio_task rxen s = nrf_radio_tasks_rxen s
  nrf_radio_task start s = nrf_radio_tasks_start s
  nrf_radio_task stop s = nrf_radio_tasks_stop s
  nrf_radio_task disable s = nrf_radio_tasks_disable s
  nrf_radio_task rssistart s = nrf_radio_tasks_rssistart s
  nrf_radio_task rssistop s = nrf_radio_tasks_rssistop s
  nrf_radio_task bcstart s = nrf_radio_tasks_bcstart s
  nrf_radio_task bcstop s = nrf_radio_tasks_bcstop s
  nrf_radio_task edstart s = nrf_radio_tasks_edstart s
  nrf_radio_task edstop s = nrf_radio_tasks_edstop s
  nrf_radio_task ccastart s = nrf_radio_tasks_ccastart s
  nrf_radio_task ccastop s = nrf_radio_tasks_ccastop s

  -- Two of the register's functions only warn.
  unfoldable pub register_task : RadioTask → Soc → Soc
  register_task rssistart s = s
  register_task rssistop s = s
  register_task t s = nrf_radio_task t s

  -- The thirteen functions nrf_radio_regw_sideeffects_TASKS_*.
  unfoldable pub nrf_radio_regw_sideeffects_tasks : RadioTask → Soc → Soc
  nrf_radio_regw_sideeffects_tasks t s =
      let r = s.radio in
      if nonzero (r.tasks (radio_row t))
      then register_task t (with_radio (record r { tasks = update r.tasks (radio_row t) 0 }) s)
      else s
