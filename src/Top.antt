-- ===== src/Top.antt =====
-- src/HW_models/NRF_HW_model_top.c: the table of the models' timers and the choice of the next one.
use ext_nrf52_hw_models.Common.{ℕ, ◌+◌, List, [], ◌∷◌, ltb, ◌==◌, if◌then◌else◌}
use ext_nrf52_hw_models.Soc.{Soc}

-- The table Timers, indexed with NRF_HW_next_timer_to_trigger_t.
abbrev pub timers : Soc → List ℕ
timers s =
    s.fake_timer ∷ s.ticker.timer ∷ s.irq.timer ∷ s.rng.timer ∷ s.temp.timer ∷ s.nvmc.timer
    ∷ s.ecb.timer ∷ s.timer_aar ∷ s.clock.timer ∷ s.timer_gpio_input ∷ s.rtcs.timer ∷ s.timers.timer
    ∷ s.timer_radio ∷ s.timer_radio_bitcounter ∷ s.timer_radio_abort_reeval ∷ []

pub record Choice : Type 0 where
  pub new_timer : ℕ
  pub index : ℕ

-- The loop of nrf_hw_find_next_timer_to_trigger, at index i.
unfoldable pub choose : List ℕ → ℕ → Choice → Choice
choose [] i c = c
choose (t ∷ ts) i c =
    choose ts (i + 1) (if ltb t c.new_timer then record { new_timer = t; index = i } else c)

-- The choice that the loop makes over the whole table, its first entry apart.
abbrev pub choose_from : List ℕ → Choice
choose_from [] = record { new_timer = 0; index = 0 }
choose_from (t ∷ ts) = choose ts 1 (record { new_timer = t; index = 0 })

unfoldable pub nrf_hw_find_next_timer_to_trigger : Soc → Soc
nrf_hw_find_next_timer_to_trigger s =
    let c = choose_from (timers s) in
    if c.new_timer == s.main_timer
    then record s { next_timer = c.index }
    else record s { next_timer = c.index; main_timer = c.new_timer; notified = s.notified + 1 }
