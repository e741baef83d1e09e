-- ===== src/Offboarding/Progress.antt =====
-- That an offboarding can be brought to its end: ticking the open required tasks one after the other
-- and then completing goes through.
use croar_backend_new.Prelude.{
  ℕ, suc, ltb, length, ◌≡◌, refl, ap, ◌∙◌, Bool, true, false, not, ◌&&◌, some, List, [], ◌∷◌, inl,
  inr, All, Bool-cases, arith, select, any, find_first, update_first, if◌then◌else◌,
  find_first-holds, find_first-update_first, All-map,
}
use croar_backend_new.Text.{Text, text_eq}
use croar_backend_new.Http.{Outcome, ok, then_ok}
use croar_backend_new.Assets.{Asset, ReturnCondition}
use croar_backend_new.Assets.Custody.{AllInStep}
use croar_backend_new.Offboarding.Custody.{return_asset-AllInStep}
use croar_backend_new.Offboarding.Held.{not_held_twice}
use croar_backend_new.Offboarding.{
  Offboarding, OffboardingStatus, completed, OffboardingTask, Employee, EnterpriseUser, Company,
  load, is_offboarding, is_task, access_title, set_offboarding, with_status,
}
use croar_backend_new.Offboarding.Tasks.{
  several, effects, set_task, started, return_asset, is_login, disabled, inactive, ticked,
  is_dropped, complete, is_completable, is_blocking, is_employee,
}
use croar_backend_new.Offboarding.Ticks.{
  any-find_first, tick_ids, pending, AreDistinct, Lists, tick-listed, none_left, pending-Lists,
}

-- Disabling a login leaves the logins that an address has.
disabled-several :
    (m n : Text) (us : List EnterpriseUser)
    → several (is_login m) (update_first (is_login n) disabled us) ≡ several (is_login m) us
disabled-several m n us = ap (λ (k : ℕ). ltb 1 k) (counted us)
  where
    counted :
        (us : List EnterpriseUser)
        → length (select (is_login m) (update_first (is_login n) disabled us))
          ≡ length (select (is_login m) us)
    counted [] = refl
    counted (u ∷ us) = elim (Bool-cases (is_login n u)) [
      | inl y ↦ rw y (elim (Bool-cases (is_login m u)) [ inl z ↦ rw z refl | inr z ↦ rw z refl ])
      | inr k ↦ rw k (elim (Bool-cases (is_login m u)) [
        | inl z ↦ rw z (ap suc (counted us))
        | inr z ↦ rw z (counted us)
      ])
    ]

-- The offboardings, the employees and the addresses of the logins stand, and the assets are in step.
record Keeps (s t : Company) : Type 0 where
  pub offboardings : t.offboardings ≡ s.offboardings
  pub employees : t.employees ≡ s.employees
  pub logins : (m : Text) → several (is_login m) t.users ≡ several (is_login m) s.users
  pub register : AllInStep t.register

effects_ok :
    (now user : ℕ) (c : ReturnCondition) (o : Offboarding) (t : OffboardingTask) (s : Company)
    (e : Employee)
    → find_first (is_employee o.employee) s.employees ≡ some e
    → several (is_login e.email) s.users ≡ false
    → AllInStep s.register
    → (s' : Company) × (effects now user c o t s ≡ ok s') × Keeps s s'
unfolding effects
effects_ok now user c o t s e h single all =
    let once = not_held_twice o.employee t.asset_id s.register all in
    let kept = return_asset-AllInStep now user o.employee c t.asset_id s.register all in
    elim (Bool-cases (text_eq t.title access_title)) [
      | inl y ↦ (
        record s { register = returned; users = update_first (is_login e.email) disabled s.users },
        rw (once, y, h, single) refl,
        record {
          offboardings = refl;
          employees = refl;
          logins = λ m. disabled-several m e.email s.users;
          register = kept;
        },
      )
      | inr n ↦ (
        record s { register = returned },
        rw (once, n) refl,
        record { offboardings = refl; employees = refl; logins = λ m. refl; register = kept },
      )
    ]
  where
    returned : List Asset
    returned = return_asset now user o.employee c t.asset_id s.register

if_due :
    (now user : ℕ) (c : ReturnCondition) (o : Offboarding) (t : OffboardingTask) (s : Company)
    (e : Employee) (b : Bool)
    → find_first (is_employee o.employee) s.employees ≡ some e
    → several (is_login e.email) s.users ≡ false
    → AllInStep s.register
    → (s' : Company) × ((if b then effects now user c o t s else ok s) ≡ ok s') × Keeps s s'
if_due now user c o t s e true h single all = effects_ok now user c o t s e h single all
if_due now user c o t s e false h single all =
    (s, refl, record { offboardings = refl; employees = refl; logins = λ m. refl; register = all })

-- The offboarding is found, approved or in progress, its employee is there with at most one login, and
-- the assets are in step.
record IsOpen (oid : ℕ) (o : Offboarding) (s : Company) : Type 0 where
  pub found : load oid s ≡ some o
  pub status : is_completable o.status ≡ true
  pub employee : Employee
  pub present : find_first (is_employee o.employee) s.employees ≡ some employee
  pub single : several (is_login employee.email) s.users ≡ false
  pub kept : AllInStep s.register

not_dropped : (st : OffboardingStatus) → is_completable st ≡ true → is_dropped st ≡ false
not_dropped st h = ground arith

started-is_completable :
    (st : OffboardingStatus) → is_completable st ≡ true → is_completable (started true st) ≡ true
started-is_completable st h = ground arith

tick_step :
    (now user oid id : ℕ) (c : ReturnCondition) (o : Offboarding) (s : Company)
    → IsOpen oid o s
    → Lists o.tasks id
    → (s' : Company) × (set_task now user oid id true c s ≡ ok s')
      × IsOpen oid (ticked id true o) s'
unfolding set_task
tick_step now user oid id c o s k l =
    let t = any-find_first (is_task id) o.tasks l in
    let d = if_due now user c o t.0 s k.employee (true && not t.0.done) k.present k.single k.kept in
    (
      set_offboarding oid (ticked id true) d.0,
      rw (k.found, not_dropped o.status k.status, t.1, d.1) refl,
      record {
        found =
            find_first-update_first (is_offboarding oid) (ticked id true) d.0.offboardings o
              (rw d.2.offboardings k.found)
              (find_first-holds (is_offboarding oid) s.offboardings o k.found);
        status = started-is_completable o.status k.status;
        employee = k.employee;
        present = rw d.2.employees k.present;
        single = d.2.logins k.employee.email ∙ k.single;
        kept = d.2.register;
      },
    )

-- The ticks of a list of tasks, as requests one after the other.
abbrev pub tick_all : ℕ → ℕ → ℕ → ReturnCondition → List ℕ → Company → Outcome Company
tick_all now user oid c [] s = ok s
tick_all now user oid c (id ∷ ids) s =
    then_ok (set_task now user oid id true c s) (tick_all now user oid c ids)

ticks :
    (now user oid : ℕ) (c : ReturnCondition) (ids : List ℕ) (o : Offboarding) (s : Company)
    → IsOpen oid o s
    → All (Lists o.tasks) ids
    → (s' : Company) × (tick_all now user oid c ids s ≡ ok s')
      × ((o' : Offboarding) × IsOpen oid o' s' × (o'.tasks ≡ tick_ids ids o.tasks))
ticks now user oid c [] o s k l = (s, refl, (o, k, refl))
ticks now user oid c (id ∷ ids) o s k (here, l) =
    let one = tick_step now user oid id c o s k here in
    let rest = ticks now user oid c ids (ticked id true o) one.0 one.2 (
      All-map (Lists o.tasks) (Lists (ticked id true o).tasks)
        (λ i h. rw (tick-listed i id o.tasks) h) ids l) in
    (rest.0, rw one.1 rest.1, rest.2)

-- An offboarding that is approved or in progress, whose tasks have ids of their own, whose employee is
-- there with at most one live login of the address in any case, and in whose company the assets are in
-- step with their assignments, can be brought to its end: ticking its open required tasks in their
-- order goes through, and so does completing it afterwards.
pub complete-IsReached :
    (now user oid : ℕ) (c : ReturnCondition) (o : Offboarding) (e : Employee) (s : Company)
    → load oid s ≡ some o
    → is_completable o.status ≡ true
    → find_first (is_employee o.employee) s.employees ≡ some e
    → several (is_login e.email) s.users ≡ false
    → AllInStep s.register
    → AreDistinct o.tasks
    → (t : Company) × (then_ok (tick_all now user oid c (pending o.tasks) s) (complete oid) ≡ ok t)
unfolding complete
complete-IsReached now user oid c o e s f st p single all d =
    let k =
      ticks now user oid c (pending o.tasks) o s
        (record { found = f; status = st; employee = e; present = p; single = single; kept = all })
        (pending-Lists o.tasks) in
    let done : any is_blocking k.2.0.tasks ≡ false = rw k.2.2 (none_left o.tasks d) in
    (
      record (set_offboarding oid (with_status completed) k.0) {
        employees = update_first (is_employee k.2.0.employee) inactive k.0.employees;
      },
      rw (k.1, k.2.1.found, k.2.1.status, done) refl,
    )
