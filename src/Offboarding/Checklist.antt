-- ===== src/Offboarding/Checklist.antt =====
-- What completing an offboarding requires, and what its checklist starts with.
use croar_backend_new.Prelude.{
  not-false, ℕ, suc, ◌≡◌, refl, Bool, true, false, not, ◌&&◌, ◌||◌, Option, none, some, List, [],
  ◌∷◌, inl, inr, All, Bool-cases, arith, select, any, find_first, update_first, ◌==◌, leb,
  find_first-holds, All-map, find_first-update_first,
}
use croar_backend_new.Http.{ok, raise_if_ok, found_or_ok, ok-inj}
use croar_backend_new.Assets.{Asset, AssetAssignment}
use croar_backend_new.Offboarding.{
  completed, requested, Offboarding, OffboardingTask, OffboardingIn, Employee, Company, load,
  is_offboarding, held_by, held, insert_held, held_asset, checklist, new_offboarding,
  create_offboarding, with_status, runs_for, is_blank, before,
}
use croar_backend_new.Offboarding.Tasks.{
  complete, is_completable, is_blocking, is_employee, inactive,
}

-- Every required task is done.
abbrev pub AllDone : List OffboardingTask → Type 0
AllDone = All (λ t. t.required ≡ true → t.done ≡ true)

-- The employee with the id, where there is one, is not active.
abbrev pub IsInactive : ℕ → Company → Type 0
IsInactive id t =
    (e : Employee) → find_first (is_employee id) t.employees ≡ some e → e.active ≡ false

none_blocking : (ts : List OffboardingTask) → any is_blocking ts ≡ false → AllDone ts
none_blocking [] h = tt
none_blocking (t ∷ ts) h = (λ r. ground (arith, r, h), none_blocking ts (ground (arith, h)))

found_inactive :
    (id : ℕ) (es : List Employee) (e : Employee)
    → find_first (is_employee id) (update_first (is_employee id) inactive es) ≡ some e
    → e.active ≡ false
found_inactive id [] e h = cc
found_inactive id (x ∷ es) e h = elim (Bool-cases (is_employee id x)) [
  | inl y ↦
      let q : some (inactive x) ≡ some e = rw (← h) (rw y (rw y refl)) in
      let q' : inactive x ≡ e = cc in rw (← q') refl
  | inr n ↦ found_inactive id es e (rw (← h) (rw n (rw n refl)))
]

-- An offboarding is completed only where it was approved or in progress and every required task was
-- done; it is then found completed, with the same tasks and employee, and the employee is not active.
pub complete-IsClosed :
    (oid : ℕ) (s t : Company)
    → complete oid s ≡ ok t
    → (o : Offboarding) × (load oid s ≡ some o)
      × (is_completable o.status ≡ true)
      × (load oid t ≡ some (with_status completed o))
      × AllDone o.tasks
      × IsInactive o.employee t
unfolding complete
complete-IsClosed oid s t h =
    let o = found_or_ok (load oid s) _ _ t h in
    let h1 = raise_if_ok (not (is_completable o.0.status)) _ _ t o.2 in
    let h2 = raise_if_ok (any is_blocking o.0.tasks) _ _ t h1.1 in
    let same : is_offboarding oid (with_status completed o.0) ≡ true =
      find_first-holds (is_offboarding oid) s.offboardings o.0 o.1 in
    (
      o.0,
      o.1,
      not-false (is_completable o.0.status) h1.0,
      rw (← ok-inj _ t h2.1) (
          find_first-update_first (is_offboarding oid) (with_status completed) s.offboardings o.0
            o.1 same),
      none_blocking o.0.tasks h2.0,
      rw (← ok-inj _ t h2.1) (λ e q. found_inactive o.0.employee s.employees e q),
    )

-- A required task to return the asset.
abbrev pub returns : ℕ → OffboardingTask → Bool
returns id t = t.required && is_asset_id t.asset_id
  where
    is_asset_id : Option ℕ → Bool
    is_asset_id none = false
    is_asset_id (some k) = k == id

abbrev listed : ℕ → List (ℕ × Asset) → Bool
listed id rows = any (λ r. r.1.id == id) rows

insert_held-listed :
    (id at : ℕ) (a : Asset) (rows : List (ℕ × Asset))
    → listed id (insert_held at a rows) ≡ ((a.id == id) || listed id rows)
insert_held-listed id at a [] = refl
insert_held-listed id at a ((u, b) ∷ rows) = elim (Bool-cases (leb at u)) [
  | inl y ↦ rw y refl
  | inr n ↦ rw (n, insert_held-listed id at a rows) (ground arith)
]

module _ (id : ℕ) where
  held_asset-listed :
      (a : Asset) (xs : List AssetAssignment) (rows : List (ℕ × Asset))
      → listed id rows ≡ true
      → listed id (held_asset a xs rows) ≡ true
  held_asset-listed a [] rows h = h
  held_asset-listed a (x ∷ xs) rows h =
      let ih = held_asset-listed a xs rows h in
      rw (insert_held-listed id x.assigned_at a (held_asset a xs rows)) (ground (arith, ih))

  held_asset_self :
      (employee : ℕ) (a : Asset) (xs : List AssetAssignment) (rows : List (ℕ × Asset))
      → a.id ≡ id
      → any (held_by employee) xs ≡ true
      → listed id (held_asset a (select (held_by employee) xs) rows) ≡ true
  held_asset_self employee a [] rows e h = absurd cc
  held_asset_self employee a (x ∷ xs) rows e h = elim (Bool-cases (held_by employee x)) [
    | inl y ↦
        rw
          (
            y,
            insert_held-listed id x.assigned_at a
                (held_asset a (select (held_by employee) xs) rows),
          )
          (ground (arith, e))
    | inr n ↦ rw n (held_asset_self employee a xs rows e (rw (← h) (rw n refl)))
  ]

  checklist-returns :
      (new position : ℕ) (rows : List (ℕ × Asset))
      → listed id rows ≡ true
      → any (returns id) (checklist new position rows) ≡ true
  unfolding checklist
  checklist-returns new position [] h = absurd cc
  checklist-returns new position ((at, a) ∷ rows) h = elim (Bool-cases (a.id == id)) [
    | inl y ↦ rw y refl
    | inr n ↦ rw n (checklist-returns new (suc position) rows (rw (← h) (rw n refl)))
  ]

abbrev IsListed : ℕ → List (ℕ × Asset) → Asset → Type 0
IsListed employee rows a = any (held_by employee) a.assignments ≡ true → listed a.id rows ≡ true

-- The assets of the register that the employee holds are among the rows.
held-IsListed :
    (employee : ℕ) (table : List Asset) → All (IsListed employee (held employee table)) table
unfolding held
held-IsListed employee [] = tt
held-IsListed employee (a ∷ table) = (
  λ h. held_asset_self a.id employee a a.assignments (held employee table) refl h,
  All-map (IsListed employee (held employee table)) (IsListed employee (held employee (a ∷ table)))
      (λ b k h.
        held_asset-listed b.id a (select (held_by employee) a.assignments) (held employee table)
          (k h))
      table (held-IsListed employee table),
)

-- The employee's open assignment of the asset has a required task to return it.
abbrev pub IsCovered : ℕ → List OffboardingTask → Asset → Type 0
IsCovered employee tasks a =
    any (held_by employee) a.assignments ≡ true → any (returns a.id) tasks ≡ true

-- An offboarding that is created for an employee is found as requested, and has a required task to
-- return each asset of the register of which the employee has an open assignment.
pub create_offboarding-IsCovered :
    (new employee : ℕ) (body : OffboardingIn) (s t : Company)
    → create_offboarding new (some employee) body s ≡ ok t
    → (o : Offboarding) × (load new t ≡ some o)
      × (o.status ≡ requested)
      × All (IsCovered employee o.tasks) s.register
unfolding create_offboarding
create_offboarding-IsCovered new employee body s t h =
    let h1 = raise_if_ok (body.other_reason && is_blank body.reason_other) _ _ t h in
    let h2 = raise_if_ok (before body.last_working_day body.resignation_date) _ _ t h1.1 in
    let h3 = raise_if_ok (any (runs_for employee) s.offboardings) _ _ t h2.1 in
    let self : (new == new) ≡ true = ground arith in
    let o = new_offboarding new employee s in
    (
      o,
      rw (← ok-inj _ t h3.1) (rw self refl),
      refl,
      All-map (IsListed employee (held employee s.register)) (IsCovered employee o.tasks)
          (λ a k q. checklist-returns a.id new 0 (held employee s.register) (k q)) s.register
          (held-IsListed employee s.register),
    )
