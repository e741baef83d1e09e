-- ===== src/Offboarding/Examples.antt =====
-- The exit of an employee who holds a laptop.
use croar_backend_new.Prelude.{◌≡◌, refl, true, false, some, none, [], ◌∷◌, All, map, any}
use croar_backend_new.Text.{codes}
use croar_backend_new.Http.{Outcome, ok, raise, conflict, unprocessable, server_error, then_ok}
use croar_backend_new.Assets.{
  Asset, AssignIn, assigned, in_repair, good, damaged, handed, new_asset, assign,
}
use croar_backend_new.Assets.Custody.{out, AllInStep}
use croar_backend_new.Offboarding.{
  requested, completed, Offboarding, OffboardingStatus, OffboardingIn, new_offboarding, Company,
  load, with_status, create_offboarding, held, checklist, decide, approve, cancel,
}
use croar_backend_new.Offboarding.Tasks.{
  effects, set_task, add_task, remove_task, complete, is_completable, is_blocking,
}
use croar_backend_new.Offboarding.Custody.{ticking, step-register}
use croar_backend_new.Offboarding.Checklist.{
  AllDone, IsInactive, IsCovered, complete-IsClosed, create_offboarding-IsCovered,
}
use croar_backend_new.Offboarding.Ticks.{pending}
use croar_backend_new.Offboarding.Progress.{tick_all, complete-IsReached}

abbrev laptop : Asset
laptop = new_asset 1 (record {
  asset_tag = codes "IT-001";
  details = record {
    name = codes "MacBook";
    category = codes "laptop";
    brand = none;
    model = none;
    serial_number = none;
    licence_key = none;
    ownership = codes "company";
    purchased_on = none;
    purchase_cost = none;
  };
  notes = none;
})

abbrev terms : AssignIn
terms = record { due_back_on = none; note = none }

abbrev staff : Company
staff = record {
  register = handed 50 9 7 terms laptop ∷ [];
  offboardings = [];
  employees = record { id = 7; email = codes "a@b.co"; active = true } ∷ [];
  users = record { email = codes "A@b.co"; is_active = true; deleted = false } ∷ [];
}

abbrev notice : OffboardingIn
notice = record {
  other_reason = false;
  reason_other = none;
  resignation_date = some 10;
  last_working_day = some 40;
}

program : Unit {0}
unfolding create_offboarding held checklist decide cancel effects set_task add_task remove_task
    complete assign
program = tt

dates :
    create_offboarding 100 (some 7) (record notice { last_working_day = some 9 }) staff
    ≡ raise unprocessable
unfolding program
dates = refl

abbrev approved_exit : Outcome Company
approved_exit = then_ok (create_offboarding 100 (some 7) notice staff) (approve 100)

-- The laptop and the five required standard tasks.
abbrev exit : Outcome Company
exit = then_ok approved_exit (tick_all 60 9 100 damaged (100 ∷ 101 ∷ 102 ∷ 103 ∷ 105 ∷ 108 ∷ []))

too_early : then_ok approved_exit (complete 100) ≡ raise conflict
unfolding program
too_early = refl

-- The laptop is in repair, the login is disabled and the employee is not active.
after_exit :
    (then_ok (then_ok exit (complete 100)) (λ s. ok (map (λ a. a.status) s.register))
      ≡ ok (in_repair ∷ []))
    × (then_ok (then_ok exit (complete 100)) (λ s. ok (map (λ u. u.is_active) s.users))
        ≡ ok (false ∷ []))
    × (then_ok (then_ok exit (complete 100)) (λ s. ok (map (λ e. e.active) s.employees))
        ≡ ok (false ∷ []))
unfolding program
after_exit = (refl, refl, refl)

-- A task of a completed offboarding can be unticked: a required task is open again.
reopened :
    then_ok
      (then_ok (then_ok exit (complete 100)) (set_task 70 9 100 101 false good))
      (λ s. ok (map (λ o. (any is_blocking o.tasks)) s.offboardings))
    ≡ ok (true ∷ [])
unfolding program
reopened = refl

-- A laptop that is handed out after the checklist was drawn up does not hold the exit up.
walked_out :
    then_ok
      (then_ok exit (λ s.
        then_ok (assign 65 9 1 (some 7) terms s.register) (λ r. ok (record s { register = r }))))
      (λ s. then_ok (complete 100 s) (λ t. ok (map (λ a. a.status) t.register)))
    ≡ ok (assigned ∷ [])
unfolding program
walked_out = refl

-- Two logins whose addresses differ in case only stop the revocation of the access.
abbrev two_logins : Company
two_logins = record staff {
  users =
      record { email = codes "A@b.co"; is_active = true; deleted = false }
      ∷ record { email = codes "a@b.co"; is_active = true; deleted = false }
      ∷ [];
}

stopped :
    then_ok
      (then_ok
        (then_ok (create_offboarding 100 (some 7) notice two_logins) (approve 100))
        (set_task 60 9 100 101 true good))
      (λ s. ok (map (λ u. u.is_active) s.users))
    ≡ raise server_error
unfolding program
stopped = refl

abbrev or_staff : Outcome Company → Company
or_staff (ok s) = s
or_staff (raise e) = staff

abbrev started : Company
started = or_staff approved_exit

step-register_example : AllInStep (or_staff (set_task 60 9 100 100 true damaged started)).register
unfolding program
step-register_example =
    step-register started (or_staff (set_task 60 9 100 100 true damaged started))
      (out refl refl refl, tt) (ticking 60 9 100 100 true damaged refl)

complete-IsClosed_example :
    (o : Offboarding) × (load 100 (or_staff exit) ≡ some o)
    × (is_completable o.status ≡ true)
    × (load 100 (or_staff (complete 100 (or_staff exit))) ≡ some (with_status completed o))
    × AllDone o.tasks
    × IsInactive o.employee (or_staff (complete 100 (or_staff exit)))
unfolding program
complete-IsClosed_example =
    complete-IsClosed 100 (or_staff exit) (or_staff (complete 100 (or_staff exit))) refl

create_offboarding-IsCovered_example :
    (o : Offboarding) × (load 100 (or_staff (create_offboarding 100 (some 7) notice staff))
      ≡ some o)
    × (o.status ≡ requested)
    × All (IsCovered 7 o.tasks) (handed 50 9 7 terms laptop ∷ [])
unfolding program
create_offboarding-IsCovered_example =
    create_offboarding-IsCovered 100 7 notice staff
      (or_staff (create_offboarding 100 (some 7) notice staff)) refl

abbrev opened : Offboarding
opened = record (new_offboarding 100 7 staff) { status = OffboardingStatus.approved }

complete-IsReached_example :
    (t : Company) × (then_ok
        (tick_all 60 9 100 damaged (pending opened.tasks) started)
        (complete 100)
      ≡ ok t)
unfolding program
complete-IsReached_example =
    complete-IsReached 60 9 100 damaged opened
      (record { id = 7; email = codes "a@b.co"; active = true }) started refl refl refl refl
      (out refl refl refl, tt)
      (refl, (refl, (refl, (refl, (refl, (refl, (refl, (refl, (refl, (refl, tt))))))))))
