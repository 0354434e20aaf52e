-- ===== src/PpiLaws/Route.antt =====
-- The routing tables of src/HW_models/NRF_PPI.c after register writes.
use ext_nrf52_hw_models.Common.{
  ℕ, ◌^◌, ◌<◌, ◌≡◌, refl, sym, ◌∙◌, ap, ap₂, ◌↔◌, ◌≢◌, Bool, true, false, not, ◌&&◌, ◌||◌, ltb,
  ◌==◌, ==_iff, Bool-cases, inl, inr, ltb→lt, arith, nonzero, Option, none, some, List, [], ◌∷◌,
}
use mathlib.Core.Option.{some-injective}
use ext_nrf52_hw_models.Common.Bits.{bit, bit-zero, bit-pow, bit-or, bit_or-lt}
use ext_nrf52_hw_models.Common.Clear.{bit-clear32, clear32-le, bit-set, pow-lt}
use ext_nrf52_hw_models.Soc.{Ppi}
use ext_nrf52_hw_models.Soc.Env.{Env}
use ext_nrf52_hw_models.Ppi.{
  number_ppi_events, ppi_events_table, nrf_ppi_regw_sideeffects_chenset,
  nrf_ppi_regw_sideeffects_chenclr, nrf_ppi_regw_sideeffects_chen, find_event, feed,
  without_channel, nrf_ppi_regw_sideeffects_eep,
}

chenset_lem :
    (p : Ppi) (ch : ℕ)
    → p.chen < 2 ^ 32
    → p.chenset < 2 ^ 32
    → let p' = nrf_ppi_regw_sideeffects_chenset p in
      (bit p'.chen ch ≡ (bit p.chen ch || bit p.chenset ch))
      × (p'.chen < 2 ^ 32)
      × (p'.chenset ≡ 0)
      × (p'.chenclr ≡ p.chenclr)
unfolding nrf_ppi_regw_sideeffects_chenset
chenset_lem p ch hchen hset = elim (Bool-cases (nonzero p.chenset)) [
  | inl given ↦
      rw given (bit-or ch p.chen p.chenset, bit_or-lt 32 p.chen p.chenset hchen hset, refl, refl)
  | inr not_given ↦
      let zero_set : p.chenset ≡ 0 = ground arith in
      let clear : bit p.chenset ch ≡ false = rw zero_set (bit-zero ch) in
      rw not_given (ground (arith, clear), hchen, zero_set, refl)
]

chenclr_lem :
    (p : Ppi) (ch : ℕ)
    → p.chen < 2 ^ 32
    → p.chenclr < 2 ^ 32
    → let p' = nrf_ppi_regw_sideeffects_chenclr p in
      (bit p'.chen ch ≡ (bit p.chen ch && not (bit p.chenclr ch)))
      × (p'.chen < 2 ^ 32)
      × (p'.chenset ≡ p.chenset)
      × (p'.chenclr ≡ 0)
unfolding nrf_ppi_regw_sideeffects_chenclr
chenclr_lem p ch hchen hclr = elim (Bool-cases (nonzero p.chenclr)) [
  | inl given ↦ rw given (
    bit-clear32 ch p.chen p.chenclr hchen hclr,
    omega (arith, clear32-le p.chen p.chenclr),
    refl,
    refl,
  )
  | inr not_given ↦
      let zero_clr : p.chenclr ≡ 0 = ground arith in
      let clear : bit p.chenclr ch ≡ false = rw zero_clr (bit-zero ch) in
      rw not_given (ground (arith, clear), hchen, refl, zero_clr)
]

-- For enable masks of 32 bits: after the side effects of a write to CHENSET and CHENCLR a channel is
-- enabled exactly if it was so or is in CHENSET, and is not in CHENCLR; both registers read 0.
pub regw_sideeffects_chen_lem :
    (p : Ppi) (ch : ℕ)
    → p.chen < 2 ^ 32
    → p.chenset < 2 ^ 32
    → p.chenclr < 2 ^ 32
    → let p' = nrf_ppi_regw_sideeffects_chen p in
      (bit p'.chen ch ≡ ((bit p.chen ch || bit p.chenset ch) && not (bit p.chenclr ch)))
      × (p'.chen < 2 ^ 32)
      × (p'.chenset ≡ 0)
      × (p'.chenclr ≡ 0)
unfolding nrf_ppi_regw_sideeffects_chen
regw_sideeffects_chen_lem p ch hchen hset hclr =
    let p1 = nrf_ppi_regw_sideeffects_chenset p in
    let s1 = chenset_lem p ch hchen hset in
    let s2 = chenclr_lem p1 ch s1.1 (omega (arith, s1.3)) in
    (s2.0 ∙ ap₂ (λ a c. a && not (bit c ch)) s1.0 s1.3, s2.1, s2.2 ∙ s1.2, s2.3)

-- Does the event stand in one of the rows?
abbrev pub among : ℕ → List ℕ → Bool
among event [] = false
among event (e ∷ rows) = e == event || among event rows

module _ ⦃env : Env⦄ (apart : (a b : ℕ) → env.event_addr a ≡ env.event_addr b → a ≡ b) where
  find_event_lem :
      (rows : List ℕ) (eep event : ℕ)
      → (find_event rows eep ≡ some event)
        ↔ ((env.event_addr event ≡ eep) × (among event rows ≡ true))
  unfolding find_event
  find_event_lem [] eep event = (λ h. absurd (ground arith), λ h. absurd (ground arith))
  find_event_lem (e ∷ rows) eep event =
      let rest = find_event_lem rows eep event in
      elim (Bool-cases (env.event_addr e == eep)) [
        | inl here ↦
            let addr = (==_iff _ eep).0 here in
            rw here (
              λ h.
                  let same = some-injective e event h in
                  (ap env.event_addr (sym same) ∙ addr, ground (arith, same)),
              λ h. ap some (apart e event (addr ∙ sym h.0)),
            )
        | inr elsewhere ↦ rw elsewhere (
          λ h. let r = rest.0 h in (r.0, ground (arith, r.1)),
          λ h. elim (Bool-cases (e == event)) [
            | inl same ↦
                let addr : env.event_addr e ≡ eep =
                  ap env.event_addr ((==_iff e event).0 same) ∙ h.0 in
                absurd (ground arith)
            | inr other ↦ rest.1 (h.0, ground (arith, other, h.1))
          ],
        )
      ]

-- Is the event the one that was found?
is_found : Option ℕ → ℕ → Bool
is_found none event = false
is_found (some e) event = e == event

is_found-some : (o : Option ℕ) (event : ℕ) → (is_found o event ≡ true) ↔ (o ≡ some event)
unfolding is_found
is_found-some none event = (λ h. absurd (ground arith), λ h. absurd (ground arith))
is_found-some (some e) event =
    (λ h. ap some ((==_iff e event).0 h), λ h. (==_iff e event).1 (some-injective e event h))

is_found-none : (event : ℕ) → is_found none event ≡ false
unfolding is_found
is_found-none event = refl

not_both : (b : Bool) → b ≡ true → b ≢ false
not_both b set clear = ground arith

feed-bit :
    (ch c event : ℕ) (o : Option ℕ) (masks : ℕ → ℕ)
    → bit (feed ch o masks event) c ≡ (bit (masks event) c || (is_found o event && ch == c))
unfolding feed is_found
feed-bit ch c event none masks = ground arith
feed-bit ch c event (some e) masks = elim (Bool-cases (e == event)) [
  | inl here ↦
      let same = (==_iff e event).0 here in
      rw (here, same) (bit-set ch c (masks event) ∙ ground arith)
  | inr other ↦ rw other (ground arith)
]

-- The channel's bit after it was removed from all masks and given to the event that was found.
feed-without_channel :
    (p : Ppi) (ch event : ℕ) (found : Option ℕ) (c : ℕ)
    → ch < 20
    → event < number_ppi_events
    → p.evt_to_ch event < 2 ^ 32
    → bit (feed ch found (without_channel ch p) event) c
      ≡ ((bit (p.evt_to_ch event) c && not (ch == c)) || (is_found found event && ch == c))
feed-without_channel p ch event found c fixed real fits =
    let counted : ltb event number_ppi_events ≡ true = ground arith in
    let removed : bit (without_channel ch p event) c
        ≡ (bit (p.evt_to_ch event) c && not (ch == c)) =
      rw counted (
        bit-clear32 c (p.evt_to_ch event) (2 ^ ch) fits (pow-lt ch 32 (omega arith))
        ∙ ap (λ b. bit (p.evt_to_ch event) c && not b) (bit-pow c ch)) in
    feed-bit ch c event found (without_channel ch p)
    ∙ ap (λ b. b || (is_found found event && ch == c)) removed

own_bit : (ch : ℕ) (b f : Bool) → ((b && not (ch == ch)) || (f && ch == ch)) ≡ f
own_bit ch b f = ground arith

other_bit : (ch c : ℕ) (b f : Bool) → c ≢ ch → ((b && not (ch == c)) || (f && ch == c)) ≡ b
other_bit ch c b f h = ground arith

module _ ⦃env : Env⦄ (apart : (a b : ℕ) → env.event_addr a ≡ env.event_addr b → a ≡ b) where
  -- Where no two events' registers have the same address, and for a channel below 20: after a write of the
  -- channel's EEP the channel listens to an event exactly if EEP is not 0, holds the address of the event's
  -- register, and the event is in the table; and of every event's channels the others are as they were.
  pub regw_sideeffects_eep_lem :
      (p : Ppi) (ch event : ℕ)
      → ch < 20
      → event < number_ppi_events
      → p.evt_to_ch event < 2 ^ 32
      → let mask = (nrf_ppi_regw_sideeffects_eep ch p).evt_to_ch event in
        ((bit mask ch ≡ true) ↔ (
          (0 < p.eep ch)
          × (env.event_addr event ≡ p.eep ch)
          × (among event ppi_events_table ≡ true)))
        × ((c : ℕ) → c ≢ ch → bit mask c ≡ bit (p.evt_to_ch event) c)
  unfolding nrf_ppi_regw_sideeffects_eep
  regw_sideeffects_eep_lem p ch event fixed real fits =
      let routable : ltb ch 20 ≡ true = ground arith in
      let search = find_event_lem apart ppi_events_table (p.eep ch) event in
      let old = bit (p.evt_to_ch event) in
      elim (Bool-cases (nonzero (p.eep ch))) [
        | inl given ↦
            let found = find_event ppi_events_table (p.eep ch) in
            let whole = λ (c : ℕ). feed-without_channel p ch event found c fixed real fits in
            let own = whole ch ∙ own_bit ch (old ch) (is_found found event) in
            rw (routable, given)
              (
                (
                  λ h.
                      let r = search.0 ((is_found-some found event).0 (sym own ∙ h)) in
                      (ltb→lt 0 (p.eep ch) given, r.0, r.1),
                  λ h. own ∙ (is_found-some found event).1 (search.1 (h.1, h.2)),
                ),
                λ c other. whole c ∙ other_bit ch c (old c) (is_found found event) other,
              )
        | inr null ↦
            let whole = λ (c : ℕ). feed-without_channel p ch event none c fixed real fits in
            let own = whole ch ∙ own_bit ch (old ch) (is_found none event) ∙ is_found-none event in
            let no_address : p.eep ch ≡ 0 = ground arith in
            rw (routable, null)
              (
                (λ h. absurd (not_both _ h own), λ h. absurd (omega (arith, h.0))),
                λ c other. whole c ∙ other_bit ch c (old c) (is_found none event) other,
              )
      ]
