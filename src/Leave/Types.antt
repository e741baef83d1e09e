-- ===== src/Leave/Types.antt =====
-- app/services/payroll/leave_service.py: the leave types of a company and the grid of balances. A code
-- is unique in its company, deleted rows included. Names and the cap on carrying leave over are left
-- out; quotas are in hundredths of a day.
use croar_backend_new.Prelude.{
  ℕ, suc, Bool, true, false, not, ◌&&◌, ◌||◌, Option, none, some, List, [], ◌∷◌, any, select,
  find_first, update_first, ◌==◌, if◌then◌else◌,
}
use croar_backend_new.Text.{Text, codes, strip, upper, text_eq}
use croar_backend_new.Http.{
  Outcome, ok, not_found, conflict, server_error, raise_if, found_or, then_ok,
}
use croar_backend_new.Leave.{
  AccrualMethod, annual, monthly, LeaveType, LeaveBalance, ensure_balance,
}

pub record TypeRow : Type 0 where
  pub code : Text
  pub is_active : Bool
  pub kind : LeaveType

pub record LeaveTypeIn : Type 0 where
  pub code : Text
  pub is_paid : Bool
  pub annual_quota : ℕ
  pub accrual : AccrualMethod
  pub is_active : Bool

-- The fields that a request sets.
pub record LeaveTypeUpdate : Type 0 where
  pub is_paid : Option Bool
  pub annual_quota : Option ℕ
  pub accrual : Option AccrualMethod
  pub is_active : Option Bool

abbrev pub list_types : ℕ → Bool → List TypeRow → List TypeRow
list_types company active_only =
    select
      (λ r. r.kind.company == company && (not r.kind.deleted && (r.is_active || not active_only)))

-- The unique constraint.
abbrev pub code_taken : ℕ → Text → List TypeRow → Bool
code_taken company code = any (λ r. r.kind.company == company && text_eq r.code code)

abbrev pub new_type : ℕ → ℕ → LeaveTypeIn → TypeRow
new_type new company body = record {
  code = body.code;
  is_active = body.is_active;
  kind = record {
    id = new;
    company = company;
    is_paid = body.is_paid;
    annual_quota = body.annual_quota;
    accrual = body.accrual;
    deleted = false;
  };
}

-- The validator `_upper` of the request.
abbrev pub clean : LeaveTypeIn → LeaveTypeIn
clean body = record body { code = upper (strip body.code) }

unfoldable pub create_type : ℕ → ℕ → LeaveTypeIn → List TypeRow → Outcome (List TypeRow)
create_type new company body rows =
    raise_if (code_taken company (clean body).code rows) conflict
      (ok (new_type new company (clean body) ∷ rows))

abbrev default_type : Text → Bool → ℕ → AccrualMethod → LeaveTypeIn
default_type code is_paid quota accrual = record {
  code = code;
  is_paid = is_paid;
  annual_quota = quota;
  accrual = accrual;
  is_active = true;
}

-- `DEFAULT_LEAVE_TYPES`
abbrev pub default_leave_types : List LeaveTypeIn
default_leave_types =
    default_type (codes "CL") true 1200 annual
    ∷ default_type (codes "SL") true 1200 annual
    ∷ default_type (codes "EL") true 1500 monthly
    ∷ default_type (codes "ML") true 18_200 annual
    ∷ default_type (codes "PL") true 1500 annual
    ∷ default_type (codes "BL") true 500 annual
    ∷ default_type (codes "LOP") false 0 annual
    ∷ []

abbrev pub has_code : Text → List TypeRow → Bool
has_code code = any (λ r. text_eq r.code code)

-- The rows for the defaults whose code is not there.
unfoldable pub missing : ℕ → ℕ → List TypeRow → List LeaveTypeIn → List TypeRow
missing new company existing [] = []
missing new company existing (d ∷ ds) =
    let rest = missing (suc new) company existing ds in
    if has_code d.code existing then rest else new_type new company d ∷ rest

unfoldable pub insert_types : List TypeRow → List TypeRow → Outcome (List TypeRow)
insert_types [] rows = ok rows
insert_types (r ∷ created) rows =
    raise_if (code_taken r.kind.company r.code rows) server_error (insert_types created (r ∷ rows))

-- The rows that are created, and the table.
unfoldable pub seed_default_types : ℕ → ℕ → List TypeRow → Outcome (List TypeRow × List TypeRow)
seed_default_types new company rows =
    let created = missing new company (list_types company false rows) default_leave_types in
    then_ok (insert_types created rows) (λ t. ok (created, t))

abbrev or_kept {ℓ} : {A : Type ℓ} → Option A → A → A
or_kept none a = a
or_kept (some b) a = b

abbrev pub updated : LeaveTypeUpdate → TypeRow → TypeRow
updated changes r = record r {
  is_active = or_kept changes.is_active r.is_active;
  kind = record r.kind {
    is_paid = or_kept changes.is_paid r.kind.is_paid;
    annual_quota = or_kept changes.annual_quota r.kind.annual_quota;
    accrual = or_kept changes.accrual r.kind.accrual;
  };
}

abbrev pub is_type_row : ℕ → ℕ → TypeRow → Bool
is_type_row company id r = r.kind.id == id && (r.kind.company == company && not r.kind.deleted)

unfoldable pub update_type : ℕ → ℕ → LeaveTypeUpdate → List TypeRow → Outcome (List TypeRow)
update_type company id changes rows =
    found_or (find_first (is_type_row company id) rows) not_found
      (λ r. ok (update_first (is_type_row company id) (updated changes) rows))

-- The loop over the types, for one employee; unpaid types carry no balance.
unfoldable pub seed_balances :
    ℕ → List TypeRow → Text → Option ℕ → List LeaveBalance → List LeaveBalance
seed_balances employee [] year month balances = balances
seed_balances employee (r ∷ rs) year month balances =
    seed_balances employee rs year month
      (if r.kind.is_paid then ensure_balance employee r.kind year month balances else balances)

unfoldable pub seed_grid :
    List ℕ → List TypeRow → Text → Option ℕ → List LeaveBalance → List LeaveBalance
seed_grid [] types year month balances = balances
seed_grid (e ∷ es) types year month balances =
    seed_grid es types year month (seed_balances e types year month balances)

-- What `list_balances` writes; `employees` are those of the company that the query finds.
unfoldable pub list_balances :
    ℕ → List ℕ → List TypeRow → Text → ℕ → List LeaveBalance → List LeaveBalance
list_balances company employees rows year month balances =
    seed_grid employees (list_types company true rows) year (some month) balances
