-- ===== src/Ecb.antt =====
-- src/HW_models/NRF_AES_ECB.c: the AES ECB accelerator. The cipher is a parameter of BLECrypt_if.c.
use ext_nrf52_hw_models.Common.{
  ℕ, ◌+◌, true, false, not, if◌then◌else◌, nonzero, ◌==◌, bit_and, bit_or, clear32, add64,
}
use ext_nrf52_hw_models.Soc.{Soc, Ecb}
use ext_nrf52_hw_models.Soc.Env.{Env}
use ext_nrf52_hw_models.Top.{nrf_hw_find_next_timer_to_trigger}
use ext_nrf52_hw_models.Irq.{hw_irq_ctrl_set_irq, trace_error}
use ext_nrf52_hw_models.Memory.{store_bytes}
use ext_nrf52_hw_models.Blecrypt.{blecrypt_if_aes_128}

-- ECB_EVENTS_ENDECB and ECB_EVENTS_ERRORECB of NRF_PPI.h.
abbrev pub ecb_events_endecb : ℕ
ecb_events_endecb = 59

abbrev pub ecb_events_errorecb : ℕ
ecb_events_errorecb = 60

abbrev pub with_ecb : Ecb → Soc → Soc
with_ecb e s = record s { ecb = e }

abbrev pub default_t_ecb : ℕ
default_t_ecb = 7

unfoldable pub nrf_aes_ecb_cheat_set_t_ecb : ℕ → Ecb → Ecb
nrf_aes_ecb_cheat_set_t_ecb new_t e = record e { t_ecb = new_t }

unfoldable pub nrf_aes_ecb_cheat_reset_t_ecb : Ecb → Ecb
nrf_aes_ecb_cheat_reset_t_ecb e = record e { t_ecb = default_t_ecb }

unfoldable pub nrf_ecb_task_startecb : Soc → Soc
nrf_ecb_task_startecb s =
    nrf_hw_find_next_timer_to_trigger
      (with_ecb (record (s.ecb) { running = true; timer = add64 s.now s.ecb.t_ecb }) s)

unfoldable pub nrf_ecb_regw_sideeffects_intenset : Ecb → Ecb
nrf_ecb_regw_sideeffects_intenset e =
    let enabled = bit_or e.inten e.intenset in
    if nonzero e.intenset then record e { inten = enabled; intenset = enabled } else e

unfoldable pub nrf_ecb_regw_sideeffects_intenclear : Ecb → Ecb
nrf_ecb_regw_sideeffects_intenclear e =
    let enabled = clear32 e.inten e.intenclr in
    if nonzero e.intenclr then record e { inten = enabled; intenset = enabled; intenclr = 0 } else e

unfoldable pub nrf_ecb_regw_sideeffects_tasks_startecb : Soc → Soc
nrf_ecb_regw_sideeffects_tasks_startecb s =
    if nonzero s.ecb.tasks_startecb
    then nrf_ecb_task_startecb (with_ecb (record (s.ecb) { tasks_startecb = 0 }) s)
    else s

module _ ⦃env : Env⦄ where
  unfoldable pub nrf_aes_ecb_init : Ecb → Ecb
  nrf_aes_ecb_init e = record e {
    timer = env.time_never;
    inten = 0;
    running = false;
    ecbdataptr = 0;
    events_endecb = 0;
    events_errorecb = 0;
    tasks_startecb = 0;
    tasks_stopecb = 0;
    intenset = 0;
    intenclr = 0;
  }

  unfoldable pub signal_endecb : Soc → Soc
  signal_endecb s =
      let s1 =
        env.nrf_ppi_event ecb_events_endecb (with_ecb (record (s.ecb) { events_endecb = 1 }) s) in
      if nonzero (bit_and s1.ecb.inten env.mdk.ecb_intenset_endecb_msk)
      then hw_irq_ctrl_set_irq env.mdk.ecb_irqn s1
      else s1

  unfoldable pub signal_errorecb : Soc → Soc
  signal_errorecb s =
      let s1 =
        env.nrf_ppi_event ecb_events_errorecb
          (with_ecb (record (s.ecb) { events_errorecb = 1 }) s) in
      if nonzero (bit_and s1.ecb.inten env.mdk.ecb_intenset_errorecb_msk)
      then hw_irq_ctrl_set_irq env.mdk.ecb_irqn s1
      else s1

  -- running = false, timer = TIME_NEVER, and the choice of the next timer.
  unfoldable pub end_ecb : Soc → Soc
  end_ecb s =
      nrf_hw_find_next_timer_to_trigger
        (with_ecb (record (s.ecb) { running = false; timer = env.time_never }) s)

  unfoldable pub nrf_ecb_task_stopecb : Soc → Soc
  nrf_ecb_task_stopecb s = if not s.ecb.running then s else signal_errorecb (end_ecb s)

  unfoldable pub nrf_ecb_regw_sideeffects_tasks_stopecb : Soc → Soc
  nrf_ecb_regw_sideeffects_tasks_stopecb s =
      if nonzero s.ecb.tasks_stopecb
      then nrf_ecb_task_stopecb (with_ecb (record (s.ecb) { tasks_stopecb = 0 }) s)
      else s

  -- The structure at ECBDATAPTR: key, clear text and cipher text, 16 bytes each.
  abbrev pub encrypt_data : Soc → Soc
  encrypt_data s =
      let at = λ (offset k : ℕ). s.ram (s.ecb.ecbdataptr + offset + k) in
      store_bytes 16 (s.ecb.ecbdataptr + 32) (blecrypt_if_aes_128 (at 0) (at 16) s) s

  unfoldable pub nrf_ecb_timer_triggered : Soc → Soc
  nrf_ecb_timer_triggered s =
      let s1 = end_ecb s in
      if s1.ecb.ecbdataptr == 0 then trace_error s1 else signal_endecb (encrypt_data s1)
