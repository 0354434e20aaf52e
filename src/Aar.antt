-- ===== src/Aar.antt =====
-- src/HW_models/NRF_AAR.c: the accelerated address resolver. The cipher is a
-- parameter of BLECrypt_if.c.
use ext_nrf52_hw_models.Common.{
  ℕ, zero, suc, ◌+◌, ◌*◌, ◌/◌, ◌%◌, ◌^◌, true, false, not, Option, none, some, ◌==◌, if◌then◌else◌,
  nonzero, bit_and, bit_or, clear32, u64,
}
use ext_nrf52_hw_models.Soc.{Soc, Aar}
use ext_nrf52_hw_models.Soc.Env.{Env}
use ext_nrf52_hw_models.Top.{nrf_hw_find_next_timer_to_trigger}
use ext_nrf52_hw_models.Irq.{hw_irq_ctrl_set_irq}
use ext_nrf52_hw_models.Blecrypt.{blecrypt_if_aes_128}

-- AAR_EVENTS_END, AAR_EVENTS_RESOLVED and AAR_EVENTS_NOTRESOLVED of NRF_PPI.h.
abbrev pub aar_events_end : ℕ
aar_events_end = 61

abbrev pub aar_events_resolved : ℕ
aar_events_resolved = 62

abbrev pub aar_events_notresolved : ℕ
aar_events_notresolved = 63

abbrev pub with_aar : Aar → Soc → Soc
with_aar a s = record s { aar = a }

-- What nrf_aar_resolve returns, and what it leaves in good_irk.
pub record Resolution : Type 0 where
  pub n_irks : ℕ
  pub good_irk : Option ℕ

-- The 24 bits that start at the third of three bytes.
abbrev pub from_bytes : (low middle high : ℕ) → ℕ
from_bytes low middle high = low + middle * 2 ^ 8 + high * 2 ^ 16

-- prand_buf
abbrev pub prand_buf : ℕ → ℕ → ℕ
prand_buf prand i =
    if i == 15
    then prand % 2 ^ 8
    else if i == 14
    then prand / 2 ^ 8 % 2 ^ 8
    else if i == 13
    then prand / 2 ^ 16 % 2 ^ 8
    else 0

unfoldable pub nrf_aar_regw_sideeffects_intenset : Aar → Aar
nrf_aar_regw_sideeffects_intenset a =
    let enabled = bit_or a.inten a.intenset in
    if nonzero a.intenset then record a { inten = enabled; intenset = enabled } else a

unfoldable pub nrf_aar_regw_sideeffects_intenclr : Aar → Aar
nrf_aar_regw_sideeffects_intenclr a =
    let enabled = clear32 a.inten a.intenclr in
    if nonzero a.intenclr then record a { inten = enabled; intenset = enabled; intenclr = 0 } else a

module _ ⦃env : Env⦄ where
  -- hash_check for the key at an address.
  abbrev pub hash_check : ℕ → ℕ → Soc → ℕ
  hash_check prand irkptr s =
      let out = blecrypt_if_aes_128 (λ j. s.ram (irkptr + j)) (prand_buf prand) s in
      from_bytes (out 15) (out 14) (out 13)

  -- The loop of nrf_aar_resolve over the keys from i on, of which left remain.
  unfoldable pub resolve_from : (prand hash : ℕ) → Soc → (left i : ℕ) → Resolution
  resolve_from prand hash s zero i = record { n_irks = i; good_irk = none }
  resolve_from prand hash s (suc left) i =
      let rest = resolve_from prand hash s left (i + 1) in
      if hash == hash_check prand (s.aar.irkptr + 16 * i) s
      then record { n_irks = i + 1; good_irk = some i }
      else rest

  -- The three bytes of the address that start at an offset.
  abbrev pub address_bytes : ℕ → Soc → ℕ
  address_bytes offset s =
      let at = λ (i : ℕ). s.ram (s.aar.addrptr + 3 + offset + i) in from_bytes (at 0) (at 1) (at 2)

  unfoldable pub nrf_aar_resolve : Soc → Resolution
  nrf_aar_resolve s =
      let prand = address_bytes 3 s in
      if not (prand / 2 ^ 22 == 1)
      then record { n_irks = s.aar.nirk; good_irk = none }
      else resolve_from prand (address_bytes 0 s) s s.aar.nirk 0

  unfoldable pub signal_events_end : Soc → Soc
  signal_events_end s =
      let s1 = env.nrf_ppi_event aar_events_end (with_aar (record (s.aar) { events_end = 1 }) s) in
      if nonzero (bit_and s1.aar.inten env.mdk.aar_intenset_end_msk)
      then hw_irq_ctrl_set_irq env.mdk.ccm_aar_irqn s1
      else s1

  unfoldable pub signal_events_resolved : Soc → Soc
  signal_events_resolved s =
      let s1 =
        env.nrf_ppi_event aar_events_resolved
          (with_aar (record (s.aar) { events_resolved = 1 }) s) in
      if nonzero (bit_and s1.aar.inten env.mdk.aar_intenclr_resolved_msk)
      then hw_irq_ctrl_set_irq env.mdk.ccm_aar_irqn s1
      else s1

  unfoldable pub signal_events_notresolved : Soc → Soc
  signal_events_notresolved s =
      let s1 =
        env.nrf_ppi_event aar_events_notresolved
          (with_aar (record (s.aar) { events_notresolved = 1 }) s) in
      if nonzero (bit_and s1.aar.inten env.mdk.aar_intenclr_notresolved_msk)
      then hw_irq_ctrl_set_irq env.mdk.ccm_aar_irqn s1
      else s1

  unfoldable pub nrf_aar_task_start : Soc → Soc
  nrf_aar_task_start s =
      let r = nrf_aar_resolve s in
      let on = with_aar (record (s.aar) { running = true; matching_irk = r.good_irk }) s in
      if not (s.aar.enable == 3)
      then s
      else nrf_hw_find_next_timer_to_trigger
          (record on { timer_aar = u64 (s.now + 1 + 6 * r.n_irks) })

  -- AAR_Running = false, Timer_AAR = TIME_NEVER, and the choice of the next timer.
  unfoldable pub end_aar : Soc → Soc
  end_aar s =
      let off = with_aar (record (s.aar) { running = false }) s in
      nrf_hw_find_next_timer_to_trigger (record off { timer_aar = env.time_never })

  unfoldable pub nrf_aar_task_stop : Soc → Soc
  nrf_aar_task_stop s = if not s.aar.running then s else signal_events_end (end_aar s)

  unfoldable pub nrf_aar_regw_sideeffects_tasks_start : Soc → Soc
  nrf_aar_regw_sideeffects_tasks_start s =
      if nonzero s.aar.tasks_start
      then nrf_aar_task_start (with_aar (record (s.aar) { tasks_start = 0 }) s)
      else s

  unfoldable pub nrf_aar_regw_sideeffects_tasks_stop : Soc → Soc
  nrf_aar_regw_sideeffects_tasks_stop s =
      if nonzero s.aar.tasks_stop
      then nrf_aar_task_stop (with_aar (record (s.aar) { tasks_stop = 0 }) s)
      else s

  -- The result of the resolution: RESOLVED with the index in STATUS, or NOTRESOLVED.
  unfoldable pub signal_result : Option ℕ → Soc → Soc
  signal_result none s = signal_events_notresolved s
  signal_result (some i) s = signal_events_resolved (with_aar (record (s.aar) { status = i }) s)

  unfoldable pub nrf_aar_timer_triggered : Soc → Soc
  nrf_aar_timer_triggered s =
      let ended = end_aar s in signal_events_end (signal_result ended.aar.matching_irk ended)

  unfoldable pub nrf_aar_init : Soc → Soc
  nrf_aar_init s =
      let zeroed : Aar = record {
        running = false;
        matching_irk = s.aar.matching_irk;
        inten = 0;
        intenset = 0;
        intenclr = 0;
        enable = 0;
        nirk = 0;
        irkptr = 0;
        addrptr = 0;
        status = 0;
        events_end = 0;
        events_resolved = 0;
        events_notresolved = 0;
        tasks_start = 0;
        tasks_stop = 0;
      } in
      record (with_aar zeroed s) { timer_aar = env.time_never }
