-- ===== src/Offboarding/Tasks.antt =====
-- app/router/enterprise/offboarding.py: the tasks of a checklist, what ticking them does, and the end
-- of an offboarding.
use croar_backend_new.Prelude.{
  ℕ, suc, Bool, true, false, not, ◌&&◌, Option, none, some, List, [], ◌∷◌, ◌++◌, find_first,
  update_first, any, ◌==◌, leb, ltb, length, select, if◌then◌else◌, is_some,
}
use croar_backend_new.Text.{Text, strip, lower, text_eq}
use croar_backend_new.Http.{
  Outcome, ok, not_found, conflict, server_error, raise_if, found_or, then_ok,
}
use croar_backend_new.Assets.{Asset, ReturnCondition, closed, status_after}
use croar_backend_new.Offboarding.{
  OffboardingStatus, approved, in_progress, completed, rejected, cancelled, TaskCategory,
  OffboardingTask, Offboarding, Employee, EnterpriseUser, Company, load, is_task, held_by,
  access_title, with_status, set_offboarding,
}

-- What a tick does to the asset of its task.
abbrev pub give_back : ℕ → ℕ → ℕ → ReturnCondition → Asset → Asset
give_back now user employee condition a =
    if any (held_by employee) a.assignments
    then record a {
      status = status_after condition;
      assignments = update_first (held_by employee) (closed now user condition none) a.assignments;
    }
    else a

abbrev pub return_asset : ℕ → ℕ → ℕ → ReturnCondition → Option ℕ → List Asset → List Asset
return_asset now user employee condition none table = table
return_asset now user employee condition (some asset_id) table =
    update_first (λ a. a.id == asset_id) (give_back now user employee condition) table

abbrev pub is_login : Text → EnterpriseUser → Bool
is_login email u = text_eq (lower u.email) (lower email) && not u.deleted

abbrev pub disabled : EnterpriseUser → EnterpriseUser
disabled u = record u { is_active = false }

abbrev pub is_employee : ℕ → Employee → Bool
is_employee id e = e.id == id

-- More than one row where the code asks for one or none, which raises MultipleResultsFound.
abbrev pub several {ℓ} : {A : Type ℓ} → (A → Bool) → List A → Bool
several p xs = ltb 1 (length (select p xs))

-- Whether the employee has more than one open assignment of the asset of a task.
abbrev pub is_held_twice : ℕ → Option ℕ → List Asset → Bool
is_held_twice employee none table = false
is_held_twice employee (some asset_id) table =
    any (λ a. a.id == asset_id && several (held_by employee) a.assignments) table

-- The effects of the first tick of a task.
unfoldable pub effects :
    ℕ → ℕ → ReturnCondition → Offboarding → OffboardingTask → Company → Outcome Company
effects now user condition o t s =
    let returned = return_asset now user o.employee condition t.asset_id s.register in
    raise_if (is_held_twice o.employee t.asset_id s.register) server_error (
      if text_eq t.title access_title
      then found_or (find_first (is_employee o.employee) s.employees) server_error (λ e.
        raise_if (several (is_login e.email) s.users) server_error (
          ok (record s {
            register = returned;
            users = update_first (is_login e.email) disabled s.users;
          })))
      else ok (record s { register = returned }))

abbrev pub tick : Bool → OffboardingTask → OffboardingTask
tick done t = record t { done = done }

abbrev pub started : Bool → OffboardingStatus → OffboardingStatus
started true approved = in_progress
started _ status = status

abbrev pub ticked : ℕ → Bool → Offboarding → Offboarding
ticked task_id done o = record o {
  status = started done o.status;
  tasks = update_first (is_task task_id) (tick done) o.tasks;
}

abbrev pub is_dropped : OffboardingStatus → Bool
is_dropped rejected = true
is_dropped cancelled = true
is_dropped _ = false

unfoldable pub set_task : ℕ → ℕ → ℕ → ℕ → Bool → ReturnCondition → Company → Outcome Company
set_task now user oid task_id done condition s = found_or (load oid s) not_found (λ o.
    raise_if (is_dropped o.status) conflict (
      found_or (find_first (is_task task_id) o.tasks) not_found (λ t.
        then_ok (if done && not t.done then effects now user condition o t s else ok s)
          (λ s'. ok (set_offboarding oid (ticked task_id done) s')))))

pub record TaskIn : Type 0 where
  pub title : Text
  pub category : TaskCategory
  pub required : Bool

-- One more than the last position, 0 on an empty list.
abbrev next_position : List OffboardingTask → ℕ
next_position [] = 0
next_position (t ∷ ts) =
    let rest = next_position ts in if leb rest t.position then suc t.position else rest

abbrev with_task : ℕ → TaskIn → Offboarding → Offboarding
with_task new body o = record o {
  tasks =
      o.tasks
      ++ (record {
        id = new;
        title = strip body.title;
        category = body.category;
        position = next_position o.tasks;
        required = body.required;
        asset_id = none;
        done = false;
      }
          ∷ []);
}

unfoldable pub add_task : ℕ → ℕ → TaskIn → Company → Outcome Company
add_task new oid body s =
    found_or (load oid s) not_found (λ o. ok (set_offboarding oid (with_task new body) s))

abbrev drop_first : (OffboardingTask → Bool) → List OffboardingTask → List OffboardingTask
drop_first p [] = []
drop_first p (t ∷ ts) = let rest = drop_first p ts in if p t then ts else t ∷ rest

abbrev without_task : ℕ → Offboarding → Offboarding
without_task task_id o = record o { tasks = drop_first (is_task task_id) o.tasks }

unfoldable pub remove_task : ℕ → ℕ → Company → Outcome Company
remove_task oid task_id s = found_or (load oid s) not_found (λ o.
    found_or (find_first (is_task task_id) o.tasks) not_found (λ t.
      raise_if (is_some t.asset_id) conflict (ok (set_offboarding oid (without_task task_id) s))))

abbrev pub is_completable : OffboardingStatus → Bool
is_completable approved = true
is_completable in_progress = true
is_completable _ = false

abbrev pub is_blocking : OffboardingTask → Bool
is_blocking t = t.required && not t.done

abbrev pub inactive : Employee → Employee
inactive e = record e { active = false }

unfoldable pub complete : ℕ → Company → Outcome Company
complete oid s = found_or (load oid s) not_found (λ o.
    raise_if (not (is_completable o.status)) conflict (
      raise_if (any is_blocking o.tasks) conflict (
        ok (record (set_offboarding oid (with_status completed) s) {
          employees = update_first (is_employee o.employee) inactive s.employees;
        }))))
