-- ===== src/PpiLaws/Entries.antt =====
-- The entries of the queue of src/HW_models/NRF_PPI.c by their index.
use ext_nrf52_hw_models.Common.{
  ℕ, zero, suc, ◌<◌, ◌≤◌, ◌≡◌, refl, ap, ◌⊎◌, true, ==_refl, inl, inr, arith, Option, none, some,
  List, [], ◌∷◌, length, get_or,
}
use ext_nrf52_hw_models.Ppi.{is_queued, set_entry}

pub Option-cases : (o : Option ℕ) → (o ≡ none) ⊎ ((task : ℕ) × (o ≡ some task))
Option-cases none = inl refl
Option-cases (some task) = inr (task, refl)

pub length-set_entry : (queue : List (Option ℕ)) (i : ℕ) → length (set_entry queue i) ≡ length queue
unfolding set_entry
length-set_entry [] i = refl
length-set_entry (e ∷ rest) zero = refl
length-set_entry (e ∷ rest) (suc i) = ap suc (length-set_entry rest i)

-- Clearing an entry makes no task.
pub get-set_entry :
    (queue : List (Option ℕ)) (i j task : ℕ)
    → get_or (set_entry queue i) j none ≡ some task
    → get_or queue j none ≡ some task
unfolding set_entry
get-set_entry [] i j task h = h
get-set_entry (e ∷ rest) zero zero task h = absurd (ground arith)
get-set_entry (e ∷ rest) zero (suc j) task h = h
get-set_entry (e ∷ rest) (suc i) zero task h = h
get-set_entry (e ∷ rest) (suc i) (suc j) task h = get-set_entry rest i j task h

pub get-is_queued :
    (queue : List (Option ℕ)) (j task : ℕ)
    → get_or queue j none ≡ some task
    → is_queued task queue ≡ true
unfolding is_queued
get-is_queued [] j task h = absurd (ground arith)
get-is_queued (e ∷ rest) zero task h = rw h (ground (arith, ==_refl task))
get-is_queued (e ∷ rest) (suc j) task h = ground (arith, get-is_queued rest j task h)

abbrev pub drop : ℕ → List (Option ℕ) → List (Option ℕ)
drop zero queue = queue
drop (suc i) [] = []
drop (suc i) (e ∷ rest) = drop i rest

pub drop-get :
    (i : ℕ) (queue : List (Option ℕ))
    → i < length queue
    → drop i queue ≡ get_or queue i none ∷ drop (suc i) queue
drop-get i [] h = absurd (omega arith)
drop-get zero (e ∷ rest) h = refl
drop-get (suc i) (e ∷ rest) h = drop-get i rest (omega arith)

pub drop-set_entry :
    (i : ℕ) (queue : List (Option ℕ)) → drop (suc i) (set_entry queue i) ≡ drop (suc i) queue
unfolding set_entry
drop-set_entry i [] = refl
drop-set_entry zero (e ∷ rest) = refl
drop-set_entry (suc i) (e ∷ rest) = drop-set_entry i rest

pub drop_all : (i : ℕ) (queue : List (Option ℕ)) → length queue ≤ i → drop i queue ≡ []
drop_all zero [] h = refl
drop_all zero (e ∷ rest) h = absurd (omega arith)
drop_all (suc i) [] h = refl
drop_all (suc i) (e ∷ rest) h = drop_all i rest (omega arith)
