-- ===== src/Offboarding.antt =====
-- app/router/enterprise/offboarding.py: the exit of an employee and its checklist, which works on the
-- register of assets, on the logins and on the employees. An employee is active or not, a login is
-- found by its address. Dates, details and comments are left out, except for the two dates that a
-- request is checked by; the ids of new rows, the clock and the user are arguments. No operation
-- deletes an offboarding.
pub mod Tasks
pub mod Custody
pub mod Checklist
pub mod Held
pub mod Ticks
pub mod Progress
mod Examples
use croar_backend_new.Prelude.{
  ℕ, suc, ◌+◌, Bool, true, false, not, ◌&&◌, ◌||◌, Option, none, some, List, [], ◌∷◌, ◌++◌, select,
  find_first, update_first, any, ◌==◌, ltb, leb, if◌then◌else◌, is_some,
}
use croar_backend_new.Text.{Text, codes, strip, lower, text_eq}
use croar_backend_new.Http.{
  Outcome, ok, unprocessable, not_found, conflict, server_error, raise_if, found_or, then_ok,
}
use croar_backend_new.Assets.{
  Asset, AssetAssignment, ReturnCondition, is_open, closed, status_after,
}

pub data OffboardingStatus : Type 0 where
  requested approved in_progress completed rejected cancelled : OffboardingStatus

pub data TaskCategory : Type 0 where
  assets access finance hr knowledge : TaskCategory

pub record OffboardingTask : Type 0 where
  pub id : ℕ
  pub title : Text
  pub category : TaskCategory
  pub position : ℕ
  pub required : Bool
  pub asset_id : Option ℕ
  pub done : Bool

pub record Offboarding : Type 0 where
  pub id : ℕ
  pub employee : ℕ
  pub status : OffboardingStatus
  pub tasks : List OffboardingTask

pub record Employee : Type 0 where
  pub id : ℕ
  pub email : Text
  pub active : Bool

pub record EnterpriseUser : Type 0 where
  pub email : Text
  pub is_active : Bool
  pub deleted : Bool

pub record Company : Type 0 where
  pub register : List Asset
  pub offboardings : List Offboarding
  pub employees : List Employee
  pub users : List EnterpriseUser

abbrev pub is_offboarding : ℕ → Offboarding → Bool
is_offboarding oid o = o.id == oid

abbrev pub load : ℕ → Company → Option Offboarding
load oid s = find_first (is_offboarding oid) s.offboardings

abbrev pub is_task : ℕ → OffboardingTask → Bool
is_task task_id t = t.id == task_id

-- The open assignment of an employee.
abbrev pub held_by : ℕ → AssetAssignment → Bool
held_by employee x = is_open x && x.employee == employee

-- The rows of `held`, by the time of the assignment.
abbrev pub insert_held : ℕ → Asset → List (ℕ × Asset) → List (ℕ × Asset)
insert_held at a [] = (at, a) ∷ []
insert_held at a ((u, b) ∷ rows) =
    let rest = insert_held at a rows in if leb at u then (at, a) ∷ (u, b) ∷ rows else (u, b) ∷ rest

abbrev pub held_asset : Asset → List AssetAssignment → List (ℕ × Asset) → List (ℕ × Asset)
held_asset a [] rows = rows
held_asset a (x ∷ xs) rows = insert_held x.assigned_at a (held_asset a xs rows)

unfoldable pub held : ℕ → List Asset → List (ℕ × Asset)
held employee [] = []
held employee (a ∷ table) =
    held_asset a (select (held_by employee) a.assignments) (held employee table)

abbrev pub asset_task : ℕ → ℕ → Asset → OffboardingTask
asset_task new position a = record {
  id = new + position;
  title = codes "Return " ++ (a.details.name ++ (codes " (" ++ (a.asset_tag ++ codes ")")));
  category = assets;
  position = position;
  required = true;
  asset_id = some a.id;
  done = false;
}

abbrev pub access_title : Text
access_title = codes "Revoke system access"

-- `STANDARD_TASKS`: the title, the category and whether the task is required.
abbrev standard_tasks : List (Text × (TaskCategory × Bool))
standard_tasks =
    (access_title, (access, true))
    ∷ (codes "Collect ID and access card", (access, true))
    ∷ (codes "Handover of work in progress", (knowledge, true))
    ∷ (codes "Knowledge transfer session", (knowledge, false))
    ∷ (codes "Final settlement calculated", (finance, true))
    ∷ (codes "Recover outstanding advances", (finance, false))
    ∷ (codes "Exit interview", (hr, false))
    ∷ (codes "Relieving letter issued", (hr, true))
    ∷ (codes "Experience letter issued", (hr, false))
    ∷ []

abbrev standard_rows : ℕ → ℕ → List (Text × (TaskCategory × Bool)) → List OffboardingTask
standard_rows new position [] = []
standard_rows new position ((title, (category, required)) ∷ specs) =
    record {
      id = new + position;
      title = title;
      category = category;
      position = position;
      required = required;
      asset_id = none;
      done = false;
    }
    ∷ standard_rows new (suc position) specs

unfoldable pub checklist : ℕ → ℕ → List (ℕ × Asset) → List OffboardingTask
checklist new position [] = standard_rows new position standard_tasks
checklist new position ((at, a) ∷ rows) =
    asset_task new position a ∷ checklist new (suc position) rows

pub record OffboardingIn : Type 0 where
  pub other_reason : Bool
  pub reason_other : Option Text
  pub resignation_date : Option ℕ
  pub last_working_day : Option ℕ

abbrev pub is_blank : Option Text → Bool
is_blank none = true
is_blank (some t) = text_eq (strip t) []

abbrev pub before : Option ℕ → Option ℕ → Bool
before (some last) (some resignation) = ltb last resignation
before _ _ = false

abbrev pub is_running : OffboardingStatus → Bool
is_running requested = true
is_running approved = true
is_running in_progress = true
is_running completed = false
is_running rejected = false
is_running cancelled = false

abbrev pub runs_for : ℕ → Offboarding → Bool
runs_for employee o = o.employee == employee && is_running o.status

abbrev pub new_offboarding : ℕ → ℕ → Company → Offboarding
new_offboarding new e s = record {
  id = new;
  employee = e;
  status = requested;
  tasks = checklist new 0 (held e s.register);
}

-- `employee` is the employee of the company that the query finds.
unfoldable pub create_offboarding : ℕ → Option ℕ → OffboardingIn → Company → Outcome Company
create_offboarding new employee body s =
    raise_if (body.other_reason && is_blank body.reason_other) unprocessable (
      raise_if (before body.last_working_day body.resignation_date) unprocessable (
        found_or employee not_found (λ e.
          raise_if (any (runs_for e) s.offboardings) conflict
            (ok (record s { offboardings = new_offboarding new e s ∷ s.offboardings })))))

abbrev pub with_status : OffboardingStatus → Offboarding → Offboarding
with_status status o = record o { status = status }

abbrev pub set_offboarding : ℕ → (Offboarding → Offboarding) → Company → Company
set_offboarding oid f s = record s {
  offboardings = update_first (is_offboarding oid) f s.offboardings;
}

abbrev pub is_requested : OffboardingStatus → Bool
is_requested requested = true
is_requested _ = false

unfoldable pub decide : OffboardingStatus → ℕ → Company → Outcome Company
decide status oid s = found_or (load oid s) not_found (λ o.
    raise_if (not (is_requested o.status)) conflict
      (ok (set_offboarding oid (with_status status) s)))

abbrev pub approve : ℕ → Company → Outcome Company
approve = decide approved

abbrev pub reject : ℕ → Company → Outcome Company
reject = decide rejected

abbrev pub is_over : OffboardingStatus → Bool
is_over completed = true
is_over cancelled = true
is_over _ = false

unfoldable pub cancel : ℕ → Company → Outcome Company
cancel oid s =
    found_or (load oid s) not_found (λ o.
      raise_if (is_over o.status) conflict (ok (set_offboarding oid (with_status cancelled) s)))
