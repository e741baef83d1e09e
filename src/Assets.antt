-- ===== src/Assets.antt =====
-- app/router/enterprise/assets.py: the register of a company's assets, who holds each and what
-- becomes of it. The state is the table of the company's assets, deleted ones included, each with its
-- assignments, the latest first. The clock, the id of a new row and the user are arguments, and so is
-- what the query for an employee finds. The list, the summary and the history are queries.
pub mod Custody
pub mod Register
mod Examples
use croar_backend_new.Prelude.{
  ℕ, ◌+◌, Bool, true, false, not, ◌&&◌, ◌||◌, Option, none, some, List, [], ◌∷◌, ◌++◌, length,
  select, find_first, update_first, any, ◌==◌, leb, if◌then◌else◌, is_some,
}
use croar_backend_new.Text.{Text, strip, lower, text_eq}
use croar_backend_new.Http.{Outcome, ok, not_found, conflict, server_error, raise_if, found_or}

pub data AssetStatus : Type 0 where
  available assigned in_repair retired lost : AssetStatus

pub data ReturnCondition : Type 0 where
  good damaged unusable not_returned : ReturnCondition

pub record AssetAssignment : Type 0 where
  pub employee : ℕ
  pub assigned_at : ℕ
  pub assigned_by : ℕ
  pub due_back_on : Option ℕ
  pub returned_at : Option ℕ
  pub returned_to : Option ℕ
  pub return_condition : Option ReturnCondition
  pub note : Option Text

-- The columns that only a form writes.
pub record Details : Type 0 where
  pub name : Text
  pub category : Text
  pub brand : Option Text
  pub model : Option Text
  pub serial_number : Option Text
  pub licence_key : Option Text
  pub ownership : Text
  pub purchased_on : Option ℕ
  pub purchase_cost : Option ℕ

pub record Asset : Type 0 where
  pub id : ℕ
  pub asset_tag : Text
  pub details : Details
  pub notes : Option Text
  pub status : AssetStatus
  pub deleted : Bool
  pub assignments : List AssetAssignment

pub record AssetIn : Type 0 where
  pub asset_tag : Text
  pub details : Details
  pub notes : Option Text

abbrev pub is_open : AssetAssignment → Bool
is_open x = not (is_some x.returned_at)

abbrev pub open_assignment : Asset → Option AssetAssignment
open_assignment a = find_first is_open a.assignments

-- `_load`: the asset with the id, where it is not deleted.
abbrev pub is_asset : ℕ → Asset → Bool
is_asset asset_id a = a.id == asset_id && not a.deleted

abbrev pub load : ℕ → List Asset → Option Asset
load asset_id table = find_first (is_asset asset_id) table

-- `(text or "").strip() or None`
abbrev or_none : Text → Option Text
or_none [] = none
or_none (c ∷ t) = some (c ∷ t)

abbrev clean : Option Text → Option Text
clean none = none
clean (some t) = or_none (strip t)

abbrev stripped : Details → Details
stripped d = record d {
  name = strip d.name;
  brand = clean d.brand;
  model = clean d.model;
  serial_number = clean d.serial_number;
  licence_key = clean d.licence_key;
}

-- The live assets that the query for a clash of tags finds.
abbrev pub clashes : (Asset → Bool) → Text → List Asset → ℕ
clashes other tag table =
    length
      (select (λ a. (text_eq (lower a.asset_tag) (lower tag) && other a) && not a.deleted) table)

-- The unique constraint on the company and the tag, which counts deleted rows too.
abbrev pub duplicate : (Asset → Bool) → Text → List Asset → Bool
duplicate other tag table = any (λ a. text_eq a.asset_tag tag && other a) table

-- The changed table, unless the tag is taken: `scalar_one_or_none` fails on more rows than one, and
-- one is a conflict.
abbrev pub if_free : (Asset → Bool) → Text → List Asset → List Asset → Outcome (List Asset)
if_free other tag table changed = raise_if (leb 2 (clashes other tag table)) server_error (
    raise_if (clashes other tag table == 1) conflict
      (raise_if (duplicate other tag table) server_error (ok changed)))

abbrev pub new_asset : ℕ → AssetIn → Asset
new_asset new body = record {
  id = new;
  asset_tag = strip body.asset_tag;
  details = stripped body.details;
  notes = clean body.notes;
  status = available;
  deleted = false;
  assignments = [];
}

unfoldable pub create_asset : ℕ → AssetIn → List Asset → Outcome (List Asset)
create_asset new body table =
    if_free (λ a. true) (strip body.asset_tag) table (new_asset new body ∷ table)

abbrev pub edited : AssetIn → Asset → Asset
edited body a = record a {
  asset_tag = strip body.asset_tag;
  details = stripped body.details;
  notes = clean body.notes;
}

unfoldable pub update_asset : ℕ → AssetIn → List Asset → Outcome (List Asset)
update_asset asset_id body table = found_or (load asset_id table) not_found (λ a.
    if_free (λ b. not (b.id == a.id)) (strip body.asset_tag) table
      (update_first (is_asset asset_id) (edited body) table))

-- A note is appended to what is there.
abbrev on_new_line : Option Text → Text
on_new_line none = []
on_new_line (some []) = []
on_new_line (some (c ∷ t)) = (c ∷ t) ++ (10 ∷ [])

abbrev appended : Option Text → Option Text → Option Text
appended old none = old
appended old (some []) = old
appended old (some (c ∷ t)) = some (on_new_line old ++ strip (c ∷ t))

-- `StatusIn` has no `assigned`.
pub data SettableStatus : Type 0 where
  to_available to_in_repair to_retired to_lost : SettableStatus

abbrev pub status_of : SettableStatus → AssetStatus
status_of to_available = available
status_of to_in_repair = in_repair
status_of to_retired = retired
status_of to_lost = lost

abbrev pub moved : SettableStatus → Option Text → Asset → Asset
moved s note a = record a { status = status_of s; notes = appended a.notes note }

unfoldable pub set_status : ℕ → SettableStatus → Option Text → List Asset → Outcome (List Asset)
set_status asset_id s note table = found_or (load asset_id table) not_found (λ a.
    raise_if (is_some (open_assignment a)) conflict
      (ok (update_first (is_asset asset_id) (moved s note) table)))

abbrev pub removed : Asset → Asset
removed a = record a { deleted = true }

unfoldable pub delete_asset : ℕ → List Asset → Outcome (List Asset)
delete_asset asset_id table = found_or (load asset_id table) not_found (λ a.
    raise_if (is_some (open_assignment a)) conflict
      (ok (update_first (is_asset asset_id) removed table)))

abbrev pub out_of_use : AssetStatus → Bool
out_of_use retired = true
out_of_use lost = true
out_of_use available = false
out_of_use assigned = false
out_of_use in_repair = false

pub record AssignIn : Type 0 where
  pub due_back_on : Option ℕ
  pub note : Option Text

abbrev pub handed : ℕ → ℕ → ℕ → AssignIn → Asset → Asset
handed now user employee body a = record a {
  status = assigned;
  assignments =
      record {
        employee = employee;
        assigned_at = now;
        assigned_by = user;
        due_back_on = body.due_back_on;
        returned_at = none;
        returned_to = none;
        return_condition = none;
        note = clean body.note;
      }
      ∷ a.assignments;
}

-- `employee` is the employee of the company that the query finds.
unfoldable pub assign : ℕ → ℕ → ℕ → Option ℕ → AssignIn → List Asset → Outcome (List Asset)
assign now user asset_id employee body table = found_or (load asset_id table) not_found (λ a.
    raise_if (is_some (open_assignment a)) conflict (
      raise_if (out_of_use a.status) conflict (
        found_or employee not_found
          (λ e. ok (update_first (is_asset asset_id) (handed now user e body) table)))))

abbrev pub status_after : ReturnCondition → AssetStatus
status_after good = available
status_after damaged = in_repair
status_after unusable = retired
status_after not_returned = lost

abbrev pub closed : ℕ → ℕ → ReturnCondition → Option Text → AssetAssignment → AssetAssignment
closed now user condition note x = record x {
  returned_at = some now;
  returned_to = some user;
  return_condition = some condition;
  note = appended x.note note;
}

abbrev pub returned : ℕ → ℕ → ReturnCondition → Option Text → Asset → Asset
returned now user condition note a = record a {
  status = status_after condition;
  assignments = update_first is_open (closed now user condition note) a.assignments;
}

unfoldable pub take_back :
    ℕ → ℕ → ℕ → ReturnCondition → Option Text → List Asset → Outcome (List Asset)
take_back now user asset_id condition note table = found_or (load asset_id table) not_found (λ a.
    found_or (open_assignment a) conflict
      (λ x. ok (update_first (is_asset asset_id) (returned now user condition note) table)))
