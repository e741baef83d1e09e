-- ===== src/Assets/Custody.antt =====
-- The status of an asset and its open assignments, through every operation of the register.
use croar_backend_new.Prelude.{
  ℕ, suc, ◌≡◌, refl, ap, Bool, true, false, not, inl, inr, Option, some, List, [], ◌∷◌, All,
  Bool-cases, leb, ◌==◌, arith, length, select, find_first, update_first, is_some, find_first-All,
  All-update_found,
}
use croar_backend_new.Text.{Text, strip}
use croar_backend_new.Http.{ok, raise_if_ok, found_or_ok, ok-inj}
use croar_backend_new.Assets.{
  AssetStatus, available, assigned, in_repair, retired, lost, ReturnCondition, good, damaged,
  unusable, not_returned, AssetAssignment, Asset, AssetIn, AssignIn, SettableStatus, to_available,
  to_in_repair, to_retired, to_lost, is_open, open_assignment, is_asset, load, create_asset,
  update_asset, set_status, delete_asset, assign, take_back, status_of, status_after, closed,
  returned, handed, moved, removed, edited, new_asset, clashes, duplicate, if_free, out_of_use,
}

abbrev pub count_open : Asset → ℕ
count_open a = length (select is_open a.assignments)

abbrev pub is_assigned : AssetStatus → Bool
is_assigned assigned = true
is_assigned available = false
is_assigned in_repair = false
is_assigned retired = false
is_assigned lost = false

-- Out with one holder and not deleted, or on the shelf with none.
pub data IsInStep (a : Asset) : Type 0 where
  out : is_assigned a.status ≡ true → count_open a ≡ 1 → a.deleted ≡ false → IsInStep a
  shelved : is_assigned a.status ≡ false → count_open a ≡ 0 → IsInStep a

no_open :
    (xs : List AssetAssignment)
    → is_some (find_first is_open xs) ≡ false
    → length (select is_open xs) ≡ 0
no_open [] h = refl
no_open (x ∷ xs) h = elim (Bool-cases (is_open x)) [
  | inl y ↦ let never : true ≡ false = rw (← h) (rw y refl) in cc
  | inr n ↦ rw n (no_open xs (rw (← h) (rw n refl)))
]

-- Closing the open assignment that is found leaves one less.
close_one :
    (now user : ℕ) (c : ReturnCondition) (remark : Option Text) (xs : List AssetAssignment)
    (x : AssetAssignment)
    → find_first is_open xs ≡ some x
    → suc (length (select is_open (update_first is_open (closed now user c remark) xs)))
      ≡ length (select is_open xs)
close_one now user c remark [] x h = cc
close_one now user c remark (y ∷ ys) x h = elim (Bool-cases (is_open y)) [
  | inl e ↦ rw e refl
  | inr e ↦ rw e (rw e (close_one now user c remark ys x (rw (← h) (rw e refl))))
]

settable : (s : SettableStatus) → is_assigned (status_of s) ≡ false
settable to_available = refl
settable to_in_repair = refl
settable to_retired = refl
settable to_lost = refl

pub status_after-free : (c : ReturnCondition) → is_assigned (status_after c) ≡ false
status_after-free good = refl
status_after-free damaged = refl
status_after-free unusable = refl
status_after-free not_returned = refl

edited-IsInStep : (body : AssetIn) (a : Asset) → IsInStep a → IsInStep (edited body a)
edited-IsInStep body a (out s n d) = out s n d
edited-IsInStep body a (shelved s n) = shelved s n

removed-IsInStep : (a : Asset) → count_open a ≡ 0 → IsInStep a → IsInStep (removed a)
removed-IsInStep a z (out s n d) = absurd (omega arith)
removed-IsInStep a z (shelved s n) = shelved s n

returned-IsInStep :
    (now user : ℕ) (c : ReturnCondition) (note : Option Text) (a : Asset) (x : AssetAssignment)
    → open_assignment a ≡ some x
    → IsInStep a
    → IsInStep (returned now user c note a)
returned-IsInStep now user c note a x h (out s n d) =
    let one = close_one now user c note a.assignments x h in
    shelved (status_after-free c) (omega arith)
returned-IsInStep now user c note a x h (shelved s n) =
    let one = close_one now user c note a.assignments x h in absurd (omega arith)

live_asset : (asset_id : ℕ) (a : Asset) → is_asset asset_id a ≡ true → a.deleted ≡ false
live_asset asset_id a h = ground arith

handed-IsInStep :
    (now user e : ℕ) (body : AssignIn) (a : Asset)
    → a.deleted ≡ false
    → count_open a ≡ 0
    → IsInStep (handed now user e body a)
handed-IsInStep now user e body a d z = out refl (ap suc z) d

-- A change of tags that succeeds met no live asset with the tag in any case, and no asset with it.
pub if_free_ok :
    (other : Asset → Bool) (tag : Text) (s changed t : List Asset)
    → if_free other tag s changed ≡ ok t
    → (clashes other tag s ≡ 0) × (duplicate other tag s ≡ false) × (changed ≡ t)
if_free_ok other tag s changed t h =
    let h1 = raise_if_ok (leb 2 (clashes other tag s)) _ _ t h in
    let h2 = raise_if_ok (clashes other tag s == 1) _ _ t h1.1 in
    let h3 = raise_if_ok (duplicate other tag s) _ _ t h2.1 in
    (ground (arith, h1.0, h2.0), h3.0, ok-inj changed t h3.1)

-- An operation of the register that succeeds.
pub data Step (s t : List Asset) : Type 0 where
  create : (new : ℕ) (body : AssetIn) → create_asset new body s ≡ ok t → Step s t
  update : (id : ℕ) (body : AssetIn) → update_asset id body s ≡ ok t → Step s t
  move :
      (id : ℕ) (status : SettableStatus) (note : Option Text)
      → set_status id status note s ≡ ok t
      → Step s t
  delete : (id : ℕ) → delete_asset id s ≡ ok t → Step s t
  hand :
      (now user id : ℕ) (employee : Option ℕ) (body : AssignIn)
      → assign now user id employee body s ≡ ok t
      → Step s t
  take :
      (now user id : ℕ) (condition : ReturnCondition) (note : Option Text)
      → take_back now user id condition note s ≡ ok t
      → Step s t

abbrev pub AllInStep : List Asset → Type 0
AllInStep = All IsInStep

module _ (s t : List Asset) (all : AllInStep s) where
  -- What a change to the asset that is loaded keeps.
  change :
      (id : ℕ) (f : Asset → Asset) (a : Asset)
      → load id s ≡ some a
      → (IsInStep a → is_asset id a ≡ true → IsInStep (f a))
      → AllInStep (update_first (is_asset id) f s)
  change id f a h k =
      let q = find_first-All IsInStep (is_asset id) s a h all in
      All-update_found IsInStep (is_asset id) f s a h (k q.0 q.1) all

  create-AllInStep : (new : ℕ) (body : AssetIn) → create_asset new body s ≡ ok t → AllInStep t
  unfolding create_asset
  create-AllInStep new body h =
      let free = if_free_ok (λ a. true) (strip body.asset_tag) s (new_asset new body ∷ s) t h in
      rw (← free.2) (shelved refl refl, all)

  update-AllInStep : (id : ℕ) (body : AssetIn) → update_asset id body s ≡ ok t → AllInStep t
  unfolding update_asset
  update-AllInStep id body h =
      let f = found_or_ok (load id s) _ _ t h in
      let free =
        if_free_ok (λ b. not (b.id == f.0.id)) (strip body.asset_tag) s
          (update_first (is_asset id) (edited body) s) t f.2 in
      rw (← free.2) (change id (edited body) f.0 f.1 (λ q _. edited-IsInStep body f.0 q))

  move-AllInStep :
      (id : ℕ) (status : SettableStatus) (note : Option Text)
      → set_status id status note s ≡ ok t
      → AllInStep t
  unfolding set_status
  move-AllInStep id status note h =
      let f = found_or_ok (load id s) _ _ t h in
      let h1 = raise_if_ok (is_some (open_assignment f.0)) _ _ t f.2 in
      rw (← ok-inj (update_first (is_asset id) (moved status note) s) t h1.1) (
        change id (moved status note) f.0 f.1
          (λ q _. shelved (settable status) (no_open f.0.assignments h1.0)))

  delete-AllInStep : (id : ℕ) → delete_asset id s ≡ ok t → AllInStep t
  unfolding delete_asset
  delete-AllInStep id h =
      let f = found_or_ok (load id s) _ _ t h in
      let h1 = raise_if_ok (is_some (open_assignment f.0)) _ _ t f.2 in
      rw (← ok-inj (update_first (is_asset id) removed s) t h1.1)
        (change id removed f.0 f.1 (λ q _. removed-IsInStep f.0 (no_open f.0.assignments h1.0) q))

  hand-AllInStep :
      (now user id : ℕ) (employee : Option ℕ) (body : AssignIn)
      → assign now user id employee body s ≡ ok t
      → AllInStep t
  unfolding assign
  hand-AllInStep now user id employee body h =
      let f = found_or_ok (load id s) _ _ t h in
      let h1 = raise_if_ok (is_some (open_assignment f.0)) _ _ t f.2 in
      let h2 = raise_if_ok (out_of_use f.0.status) _ _ t h1.1 in
      let h3 = found_or_ok employee _ _ t h2.1 in
      rw (← ok-inj (update_first (is_asset id) (handed now user h3.0 body) s) t h3.2) (
        change id (handed now user h3.0 body) f.0 f.1 (λ _ live.
          handed-IsInStep now user h3.0 body f.0 (live_asset id f.0 live)
            (no_open f.0.assignments h1.0)))

  take-AllInStep :
      (now user id : ℕ) (c : ReturnCondition) (note : Option Text)
      → take_back now user id c note s ≡ ok t
      → AllInStep t
  unfolding take_back
  take-AllInStep now user id c note h =
      let f = found_or_ok (load id s) _ _ t h in
      let g = found_or_ok (open_assignment f.0) _ _ t f.2 in
      rw (← ok-inj (update_first (is_asset id) (returned now user c note) s) t g.2) (
        change id (returned now user c note) f.0 f.1
          (λ q _. returned-IsInStep now user c note f.0 g.0 g.1 q))

-- Every operation of the register that succeeds, from a table in which each asset either has the
-- status assigned, exactly one open assignment and is not deleted, or has another status and no open
-- assignment, leads to such a table.
pub step-AllInStep : (s t : List Asset) → AllInStep s → Step s t → AllInStep t
step-AllInStep s t all (create new body h) = create-AllInStep s t all new body h
step-AllInStep s t all (update id body h) = update-AllInStep s t all id body h
step-AllInStep s t all (move id status note h) = move-AllInStep s t all id status note h
step-AllInStep s t all (delete id h) = delete-AllInStep s t all id h
step-AllInStep s t all (hand now user id employee body h) =
    hand-AllInStep s t all now user id employee body h
step-AllInStep s t all (take now user id c note h) = take-AllInStep s t all now user id c note h
