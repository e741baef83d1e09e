-- ===== src/Assets/Register.antt =====
-- What the register promises: an asset is in one of five states, and its state decides what may be
-- done with it.
use croar_backend_new.Prelude.{
  ℕ, ◌≡◌, refl, sym, ◌∙◌, true, false, inl, inr, Option, none, some, List, ◌∷◌, [], Bool-cases,
  arith, length, select, find_first, update_first, find_first-All, find_first-update_first,
}
use croar_backend_new.Text.{Text}
use croar_backend_new.Http.{Outcome, ok, raise, not_found, conflict, raise_if, found_or, then_ok}
use croar_backend_new.Assets.{
  AssetStatus, available, assigned, in_repair, retired, lost, ReturnCondition, AssetAssignment,
  Asset, AssignIn, SettableStatus, is_open, is_asset, load, set_status, assign, take_back,
  status_of, status_after, returned, handed, moved, out_of_use,
}
use croar_backend_new.Assets.Custody.{IsInStep, out, shelved, is_assigned, AllInStep}

-- What is done to one asset, with the arguments of the request.
pub data Action : Type 0 where
  hand : (now user employee : ℕ) → AssignIn → Action
  take : (now user : ℕ) → ReturnCondition → Option Text → Action
  move : SettableStatus → Option Text → Action

abbrev pub perform : Action → ℕ → List Asset → Outcome (List Asset)
perform (hand now user employee body) id s = assign now user id (some employee) body s
perform (take now user condition note) id s = take_back now user id condition note s
perform (move status note) id s = set_status id status note s

-- The contract, on the status alone.
abbrev pub next : Action → AssetStatus → Outcome AssetStatus
next (hand _ _ _ _) available = ok assigned
next (hand _ _ _ _) in_repair = ok assigned
next (hand _ _ _ _) assigned = raise conflict
next (hand _ _ _ _) retired = raise conflict
next (hand _ _ _ _) lost = raise conflict
next (take _ _ condition _) assigned = ok (status_after condition)
next (take _ _ _ _) _ = raise conflict
next (move _ _) assigned = raise conflict
next (move status _) _ = ok (status_of status)

-- The status that the asset with the id has afterwards.
abbrev pub status_in : ℕ → Outcome (List Asset) → Outcome AssetStatus
status_in id o = then_ok o (λ t. found_or (load id t) not_found (λ a. ok a.status))

open_none :
    (xs : List AssetAssignment) → length (select is_open xs) ≡ 0 → find_first is_open xs ≡ none
open_none [] h = refl
open_none (x ∷ xs) h = elim (Bool-cases (is_open x)) [
  | inl y ↦ absurd (ground (arith, y, h))
  | inr n ↦ rw n (open_none xs (rw (← h) (rw n refl)))
]

open_some :
    (xs : List AssetAssignment)
    → length (select is_open xs) ≡ 1
    → (x : AssetAssignment) × (find_first is_open xs ≡ some x)
open_some [] h = absurd (omega arith)
open_some (x ∷ xs) h = elim (Bool-cases (is_open x)) [
  | inl y ↦ rw y (x, refl)
  | inr n ↦ rw n (open_some xs (rw (← h) (rw n refl)))
]

module _ (id : ℕ) (s : List Asset) (a : Asset) (found : load id s ≡ some a) where
  -- The status of the asset after a change to it that keeps its id and leaves it live.
  changed :
      (f : Asset → Asset)
      → is_asset id (f a) ≡ true
      → status_in id (ok (update_first (is_asset id) f s)) ≡ ok (f a).status
  changed f k = rw (find_first-update_first (is_asset id) f s a found k) refl

  hand_by :
      (st : AssetStatus) (t : List Asset)
      → is_assigned st ≡ false
      → status_in id (ok t) ≡ ok assigned
      → (now user e : ℕ) (body : AssignIn)
      → status_in id (raise_if (out_of_use st) conflict (ok t)) ≡ next (hand now user e body) st
  hand_by available t h k now user e body = k
  hand_by in_repair t h k now user e body = k
  hand_by assigned t h k now user e body = cc
  hand_by retired t h k now user e body = refl
  hand_by lost t h k now user e body = refl

-- What the contract says of an asset that is out, and of one that is not.
next_out :
    (st : AssetStatus)
    → is_assigned st ≡ true
    → ((now user : ℕ) (c : ReturnCondition) (note : Option Text)
        → next (take now user c note) st ≡ ok (status_after c))
      × ((now user e : ℕ) (body : AssignIn) → next (hand now user e body) st ≡ raise conflict)
      × ((m : SettableStatus) (note : Option Text) → next (move m note) st ≡ raise conflict)
next_out assigned h = (λ now user c note. refl, λ now user e body. refl, λ m note. refl)
next_out available h = absurd cc
next_out in_repair h = absurd cc
next_out retired h = absurd cc
next_out lost h = absurd cc

next_shelved :
    (st : AssetStatus)
    → is_assigned st ≡ false
    → ((now user : ℕ) (c : ReturnCondition) (note : Option Text)
        → next (take now user c note) st ≡ raise conflict)
      × ((m : SettableStatus) (note : Option Text) → next (move m note) st ≡ ok (status_of m))
next_shelved assigned h = absurd cc
next_shelved available h = (λ now user c note. refl, λ m note. refl)
next_shelved in_repair h = (λ now user c note. refl, λ m note. refl)
next_shelved retired h = (λ now user c note. refl, λ m note. refl)
next_shelved lost h = (λ now user c note. refl, λ m note. refl)

module _ (id : ℕ) (s : List Asset) (a : Asset) (found : load id s ≡ some a) where
  by_status :
      (act : Action)
      → IsInStep a
      → is_asset id a ≡ true
      → status_in id (perform act id s) ≡ next act a.status
  unfolding assign take_back set_status
  by_status (hand now user e body) (out st n d) k =
      let o = open_some a.assignments n in
      rw found (rw o.1 (sym ((next_out a.status st).1 now user e body)))
  by_status (hand now user e body) (shelved st n) k = rw found (
      rw (open_none a.assignments n) (
        hand_by id s a found a.status _ st (changed id s a found (handed now user e body) k) now
          user e body))
  by_status (take now user c note) (out st n d) k =
      let o = open_some a.assignments n in
      rw found (
        rw o.1 (
          changed id s a found (returned now user c note) k
          ∙ sym ((next_out a.status st).0 now user c note)))
  by_status (take now user c note) (shelved st n) k =
      rw found (rw (open_none a.assignments n) (sym ((next_shelved a.status st).0 now user c note)))
  by_status (move m note) (out st n d) k =
      let o = open_some a.assignments n in rw found (rw o.1 (sym ((next_out a.status st).2 m note)))
  by_status (move m note) (shelved st n) k = rw found (
      rw (open_none a.assignments n)
        (changed id s a found (moved m note) k ∙ sym ((next_shelved a.status st).1 m note)))

-- In a table whose assets are all in step, handing the asset with an id to a known employee, taking
-- it back or setting its status succeeds exactly where the contract allows it for the status of the
-- asset, answers with a conflict elsewhere, and leaves the asset with the status that the contract
-- names.
pub perform-next :
    (act : Action) (id : ℕ) (s : List Asset) (a : Asset)
    → AllInStep s
    → load id s ≡ some a
    → status_in id (perform act id s) ≡ next act a.status
perform-next act id s a all found =
    let q = find_first-All IsInStep (is_asset id) s a found all in
    by_status id s a found act q.0 q.1
