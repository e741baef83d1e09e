-- ===== src/Statutory/Slabs.antt =====
-- The professional tax schedules as functions of the gross (app/services/payroll/statutory.py).
use croar_backend_new.Prelude.{
  ◌≡◌, refl, All, List, [], ◌∷◌, Option, none, some, inl, inr, Bool-cases, arith,
}
use mathlib.Core.Path.{subst}
use mathlib.Core.Option.{some-injective}
use croar_backend_new.Prelude.Int.{pos, ◌≤ℤ◌}
use croar_backend_new.Money.{Money, cents, half_up, half_up_ℕ, ◌*ℤ◌}
use croar_backend_new.Text.{Text, lookup_text, text_eq}
use croar_backend_new.Statutory.{
  Slab, rupees, round_rupee, pt_amount, pt_slabs, pt_of_slabs, state_code, compute_pt,
}

-- The amounts of the bands rise from `low` to `high`, and the last band has no upper bound.
abbrev IsSchedule : Money → Money → List Slab → Type 0
IsSchedule low high [] = ⊥
IsSchedule low high ((none, amount) ∷ slabs) =
    (low ≤ℤ round_rupee (cents amount)) × (round_rupee (cents amount) ≤ℤ high)
IsSchedule low high ((some upper, amount) ∷ slabs) =
    (low ≤ℤ round_rupee (cents amount)) × IsSchedule (round_rupee (cents amount)) high slabs

pt_amount_bounds :
    (low high : Money) (slabs : List Slab) (gross : Money)
    → IsSchedule low high slabs
    → (low ≤ℤ pt_amount slabs gross) × (pt_amount slabs gross ≤ℤ high)
unfolding pt_amount
pt_amount_bounds low high [] gross h = absurd h
pt_amount_bounds low high ((none, amount) ∷ slabs) gross h = h
pt_amount_bounds low high ((some upper, amount) ∷ slabs) gross h =
    let later = pt_amount_bounds (round_rupee (cents amount)) high slabs gross h.1 in ground arith

pt_amount_mono :
    (low high : Money) (slabs : List Slab) (g g' : Money)
    → IsSchedule low high slabs
    → g ≤ℤ g'
    → pt_amount slabs g ≤ℤ pt_amount slabs g'
unfolding pt_amount
pt_amount_mono low high [] g g' h k = absurd h
pt_amount_mono low high ((none, amount) ∷ slabs) g g' h k = omega arith
pt_amount_mono low high ((some upper, amount) ∷ slabs) g g' h k =
    let a = round_rupee (cents amount) in
    let later = pt_amount_bounds a high slabs g' h.1 in
    let ih = pt_amount_mono a high slabs g g' h.1 k in ground arith

lookup_All :
    (P : List Slab → Type 0) (code : Text) (table : List (Text × List Slab)) {slabs : List Slab}
    → All (λ entry. P entry.1) table
    → lookup_text code table ≡ some slabs
    → P slabs
lookup_All P code [] h e = cc
lookup_All P code ((k, v) ∷ table) {slabs} h e = elim (Bool-cases (text_eq code k)) [
  | inl same ↦ let f : v ≡ slabs = some-injective v slabs (ground arith) in subst P f h.0
  | inr other ↦ lookup_All P code table h.1 (ground arith)
]

-- Every schedule of the table runs from 0 to 200 rupees.
tables_IsSchedule : All (λ entry. IsSchedule (pos 0) (rupees 200) entry.1) pt_slabs
unfolding round_rupee half_up half_up_ℕ ◌*ℤ◌
tables_IsSchedule = omega arith

pt_of_slabs_bounds :
    (code : Text) (found : Option (List Slab)) (g g' : Money)
    → ((slabs : List Slab) → found ≡ some slabs → IsSchedule (pos 0) (rupees 200) slabs)
    → g ≤ℤ g'
    → let low = (pt_of_slabs code found g).amount in
      let high = (pt_of_slabs code found g').amount in
      (pos 0 ≤ℤ low) × (low ≤ℤ high) × (high ≤ℤ rupees 200)
unfolding pt_of_slabs
pt_of_slabs_bounds code none g g' h k = omega arith
pt_of_slabs_bounds code (some slabs) g g' h k =
    let s = h slabs refl in
    let low = pt_amount_bounds (pos 0) (rupees 200) slabs g s in
    let high = pt_amount_bounds (pos 0) (rupees 200) slabs g' s in
    let mono = pt_amount_mono (pos 0) (rupees 200) slabs g g' s k in omega arith

-- In every state, known or not, the tax is between 0 and 200 rupees, and a higher gross is never
-- taxed less.
pub compute_pt_bounds :
    (state : Option Text) (g g' : Money)
    → g ≤ℤ g'
    → let low = (compute_pt state g).amount in
      let high = (compute_pt state g').amount in
      (pos 0 ≤ℤ low) × (low ≤ℤ high) × (high ≤ℤ rupees 200)
unfolding compute_pt
compute_pt_bounds state g g' k =
    let code = state_code state in
    pt_of_slabs_bounds code (lookup_text code pt_slabs) g g'
      (λ slabs e. lookup_All (IsSchedule (pos 0) (rupees 200)) code pt_slabs tables_IsSchedule e) k
