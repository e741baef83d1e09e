-- ===== src/Offboarding/Custody.antt =====
-- The register of assets through the operations of an offboarding and its own.
use croar_backend_new.Prelude.{
  ℕ, suc, ◌≡◌, refl, ap, Bool, true, false, not, ◌&&◌, Option, none, some, List, [], ◌∷◌, inl, inr,
  Bool-cases, arith, length, select, any, find_first, update_first, is_some, ◌==◌, All-update_first,
  if◌then◌else◌,
}
use croar_backend_new.Text.{text_eq}
use croar_backend_new.Http.{
  ok, server_error, found_or, raise_if, raise_if_ok, found_or_ok, then_ok_ok, ok-inj,
}
use croar_backend_new.Assets.{
  Asset, AssetAssignment, ReturnCondition, is_open, closed, status_after,
}
use croar_backend_new.Assets.Custody.{
  Step as AssetStep, IsInStep, out, shelved, count_open, AllInStep, status_after-free,
  step-AllInStep,
}
use croar_backend_new.Offboarding.{
  Offboarding, OffboardingTask, OffboardingStatus, OffboardingIn, Company, load, held_by,
  create_offboarding, decide, cancel, is_requested, is_over, runs_for, is_blank, before, approve,
  reject, approved, rejected, is_task, access_title,
}
use croar_backend_new.Offboarding.Tasks.{
  TaskIn, give_back, return_asset, several, is_held_twice, effects, set_task, is_dropped, add_task,
  remove_task, is_login, disabled, complete, is_completable, is_blocking, is_employee,
}

-- Closing the assignment of one holder leaves one open assignment less.
close_own :
    (now user employee : ℕ) (c : ReturnCondition) (xs : List AssetAssignment)
    → any (held_by employee) xs ≡ true
    → suc (length (select is_open (update_first (held_by employee) (closed now user c none) xs)))
      ≡ length (select is_open xs)
close_own now user employee c [] h = absurd cc
close_own now user employee c (x ∷ xs) h = elim (Bool-cases (held_by employee x)) [
  | inl y ↦ let o : is_open x ≡ true = ground (arith, y) in rw (y, o) refl
  | inr n ↦
      let ih = close_own now user employee c xs (rw (← h) (rw n refl)) in
      elim (Bool-cases (is_open x)) [ inl o ↦ rw (n, o) (ap suc ih) | inr o ↦ rw (n, o) ih ]
]

give_back-IsInStep :
    (now user employee : ℕ) (c : ReturnCondition) (a : Asset)
    → IsInStep a
    → IsInStep (give_back now user employee c a)
give_back-IsInStep now user employee c a q =
    elim (Bool-cases (any (held_by employee) a.assignments)) [
      | inr n ↦ rw n q
      | inl y ↦ rw y (less (close_own now user employee c a.assignments y) q)
    ]
  where
    less :
        suc (
            length (
              select is_open
                (update_first (held_by employee) (closed now user c none) a.assignments)))
          ≡ count_open a
        → IsInStep a
        → IsInStep (record a {
          status = status_after c;
          assignments = update_first (held_by employee) (closed now user c none) a.assignments;
        })
    less one (out s n d) = shelved (status_after-free c) (omega arith)
    less one (shelved s n) = absurd (omega arith)

pub return_asset-AllInStep :
    (now user employee : ℕ) (c : ReturnCondition) (asset : Option ℕ) (table : List Asset)
    → AllInStep table
    → AllInStep (return_asset now user employee c asset table)
return_asset-AllInStep now user employee c none table all = all
return_asset-AllInStep now user employee c (some id) table all =
    All-update_first IsInStep (λ a. a.id == id) (give_back now user employee c) table
      (λ a q. give_back-IsInStep now user employee c a q) all

keep : (x y : Company) → ok x ≡ ok y → AllInStep x.register → AllInStep y.register
keep x y e all = rw (← ok-inj x y e) all

effects-AllInStep :
    (now user : ℕ) (c : ReturnCondition) (o : Offboarding) (t : OffboardingTask) (s s' : Company)
    → AllInStep s.register
    → effects now user c o t s ≡ ok s'
    → AllInStep s'.register
unfolding effects
effects-AllInStep now user c o t s s' all h =
    let kept = return_asset-AllInStep now user o.employee c t.asset_id s.register all in
    let (_, h') = raise_if_ok (is_held_twice o.employee t.asset_id s.register) _ _ s' h in
    branch (text_eq t.title access_title) kept h'
  where
    returned : List Asset
    returned = return_asset now user o.employee c t.asset_id s.register

    branch :
        (b : Bool)
        → AllInStep returned
        → (if b
            then found_or (find_first (is_employee o.employee) s.employees) server_error (λ e.
              raise_if (several (is_login e.email) s.users) server_error (
                ok (record s {
                  register = returned;
                  users = update_first (is_login e.email) disabled s.users;
                })))
            else ok (record s { register = returned }))
          ≡ ok s'
        → AllInStep s'.register
    branch true kept h =
        let e = found_or_ok (find_first (is_employee o.employee) s.employees) _ _ s' h in
        let h1 = raise_if_ok (several (is_login e.0.email) s.users) _ _ s' e.2 in
        keep _ s' h1.1 kept
    branch false kept h = keep _ s' h kept

-- An operation that succeeds, on an offboarding or on the register of the same company.
pub data Step (s t : Company) : Type 0 where
  creating :
      (new : ℕ) (employee : Option ℕ) (body : OffboardingIn)
      → create_offboarding new employee body s ≡ ok t
      → Step s t
  approving : (oid : ℕ) → approve oid s ≡ ok t → Step s t
  rejecting : (oid : ℕ) → reject oid s ≡ ok t → Step s t
  cancelling : (oid : ℕ) → cancel oid s ≡ ok t → Step s t
  ticking :
      (now user oid task_id : ℕ) (done : Bool) (c : ReturnCondition)
      → set_task now user oid task_id done c s ≡ ok t
      → Step s t
  adding : (new oid : ℕ) (body : TaskIn) → add_task new oid body s ≡ ok t → Step s t
  removing : (oid task_id : ℕ) → remove_task oid task_id s ≡ ok t → Step s t
  completing : (oid : ℕ) → complete oid s ≡ ok t → Step s t
  registering :
      (table : List Asset)
      → AssetStep s.register table
      → record s { register = table } ≡ t
      → Step s t

module _ (s t : Company) (all : AllInStep s.register) where
  decide-AllInStep :
      (status : OffboardingStatus) (oid : ℕ) → decide status oid s ≡ ok t → AllInStep t.register
  unfolding decide
  decide-AllInStep status oid h =
      let o = found_or_ok (load oid s) _ _ t h in
      let h1 = raise_if_ok (not (is_requested o.0.status)) _ _ t o.2 in rw (← ok-inj _ t h1.1) all

  cancel-AllInStep : (oid : ℕ) → cancel oid s ≡ ok t → AllInStep t.register
  unfolding cancel
  cancel-AllInStep oid h =
      let o = found_or_ok (load oid s) _ _ t h in
      let h1 = raise_if_ok (is_over o.0.status) _ _ t o.2 in rw (← ok-inj _ t h1.1) all

  create_offboarding-AllInStep :
      (new : ℕ) (employee : Option ℕ) (body : OffboardingIn)
      → create_offboarding new employee body s ≡ ok t
      → AllInStep t.register
  unfolding create_offboarding
  create_offboarding-AllInStep new employee body h =
      let h1 = raise_if_ok (body.other_reason && is_blank body.reason_other) _ _ t h in
      let h2 = raise_if_ok (before body.last_working_day body.resignation_date) _ _ t h1.1 in
      let e = found_or_ok employee _ _ t h2.1 in
      let h3 = raise_if_ok (any (runs_for e.0) s.offboardings) _ _ t e.2 in
      rw (← ok-inj _ t h3.1) all

  set_task-AllInStep :
      (now user oid task_id : ℕ) (done : Bool) (c : ReturnCondition)
      → set_task now user oid task_id done c s ≡ ok t
      → AllInStep t.register
  unfolding set_task
  set_task-AllInStep now user oid task_id done c h =
      let o = found_or_ok (load oid s) _ _ t h in
      let h1 = raise_if_ok (is_dropped o.0.status) _ _ t o.2 in
      let k = found_or_ok (find_first (is_task task_id) o.0.tasks) _ _ t h1.1 in
      let r =
        then_ok_ok (if done && not k.0.done then effects now user c o.0 k.0 s else ok s) _ t k.2 in
      rw (← ok-inj _ t r.2) (branch o.0 k.0 r.0 (done && not k.0.done) r.1)
    where
      branch :
          (o : Offboarding) (k : OffboardingTask) (s' : Company) (b : Bool)
          → (if b then effects now user c o k s else ok s) ≡ ok s'
          → AllInStep s'.register
      branch o k s' true h = effects-AllInStep now user c o k s s' all h
      branch o k s' false h = rw (← ok-inj s s' h) all

  add_task-AllInStep :
      (new oid : ℕ) (body : TaskIn) → add_task new oid body s ≡ ok t → AllInStep t.register
  unfolding add_task
  add_task-AllInStep new oid body h =
      let o = found_or_ok (load oid s) _ _ t h in rw (← ok-inj _ t o.2) all

  remove_task-AllInStep :
      (oid task_id : ℕ) → remove_task oid task_id s ≡ ok t → AllInStep t.register
  unfolding remove_task
  remove_task-AllInStep oid task_id h =
      let o = found_or_ok (load oid s) _ _ t h in
      let k = found_or_ok (find_first (is_task task_id) o.0.tasks) _ _ t o.2 in
      let h1 = raise_if_ok (is_some k.0.asset_id) _ _ t k.2 in rw (← ok-inj _ t h1.1) all

  complete-AllInStep : (oid : ℕ) → complete oid s ≡ ok t → AllInStep t.register
  unfolding complete
  complete-AllInStep oid h =
      let o = found_or_ok (load oid s) _ _ t h in
      let h1 = raise_if_ok (not (is_completable o.0.status)) _ _ t o.2 in
      let h2 = raise_if_ok (any is_blocking o.0.tasks) _ _ t h1.1 in rw (← ok-inj _ t h2.1) all

-- Every operation that succeeds, on the offboardings or on the register, ticks that give an asset back
-- included, keeps each asset of the company either with the status assigned, exactly one open
-- assignment and not deleted, or with another status and no open assignment.
pub step-register : (s t : Company) → AllInStep s.register → Step s t → AllInStep t.register
step-register s t all (creating new employee body h) =
    create_offboarding-AllInStep s t all new employee body h
step-register s t all (approving oid h) = decide-AllInStep s t all approved oid h
step-register s t all (rejecting oid h) = decide-AllInStep s t all rejected oid h
step-register s t all (cancelling oid h) = cancel-AllInStep s t all oid h
step-register s t all (ticking now user oid task_id done c h) =
    set_task-AllInStep s t all now user oid task_id done c h
step-register s t all (adding new oid body h) = add_task-AllInStep s t all new oid body h
step-register s t all (removing oid task_id h) = remove_task-AllInStep s t all oid task_id h
step-register s t all (completing oid h) = complete-AllInStep s t all oid h
step-register s t all (registering table step e) =
    rw (← e) (step-AllInStep s.register table all step)
