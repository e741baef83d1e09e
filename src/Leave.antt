-- ===== src/Leave.antt =====
-- app/services/payroll/leave_service.py: leave types, balances and requests. Days are in hundredths,
-- dates are ordinals, `month` is the month of the current date, and the tables are lists of rows, the
-- newest first. Names, notes and time stamps are left out.
pub mod Overlap
pub mod Balances
pub mod Accrual
pub mod Types
pub mod Codes
pub mod Grid
mod Examples
mod TypeExamples
use croar_backend_new.Prelude.{
  ℕ, suc, ◌+◌, ◌-◌, ◌*◌, ◌%◌, min, Bool, true, false, not, ◌&&◌, ◌||◌, Option, none, some, is_some,
  List, [], ◌∷◌, length, select, find_first, update_first, any, ◌==◌, ltb, if◌then◌else◌,
}
use croar_backend_new.Http.{
  Outcome, ok, raise, bad_request, not_found, conflict, raise_if, found_or, then_ok,
}
use croar_backend_new.Text.{Text, codes, text_eq}
use croar_backend_new.Money.{half_even}
use croar_backend_new.Calendar.{Holiday, WorkCalendarConfig, days, is_working_day, holiday_dates}

pub data AccrualMethod : Type 0 where
  annual monthly : AccrualMethod

pub record LeaveType : Type 0 where
  pub id : ℕ
  pub company : ℕ
  pub is_paid : Bool
  pub annual_quota : ℕ
  pub accrual : AccrualMethod
  pub deleted : Bool

pub record LeaveBalance : Type 0 where
  pub employee : ℕ
  pub leave_type : ℕ
  pub financial_year : Text
  pub entitled : ℕ
  pub accrued : ℕ
  pub used : ℕ
  pub deleted : Bool

pub data LeaveStatus : Type 0 where
  pending approved rejected cancelled : LeaveStatus

pub record LeaveRequest : Type 0 where
  pub id : ℕ
  pub company : ℕ
  pub employee : ℕ
  pub leave_type : ℕ
  pub start_date : ℕ
  pub end_date : ℕ
  pub days : ℕ
  pub half_day : Bool
  pub status : LeaveStatus
  pub requested_by : Option ℕ
  pub approved_by : Option ℕ
  pub deleted : Bool

pub record Db : Type 0 where
  pub types : List LeaveType
  pub balances : List LeaveBalance
  pub requests : List LeaveRequest

abbrev pub default_financial_year : Text
default_financial_year = codes "2026-27"

-- `_get_type`
abbrev is_type : ℕ → ℕ → LeaveType → Bool
is_type company id t = t.id == id && (t.company == company && not t.deleted)

abbrev pub get_type : ℕ → ℕ → Db → Option LeaveType
get_type company id db = find_first (is_type company id) db.types

-- Months since April, April included.
abbrev pub months_elapsed : ℕ → ℕ
months_elapsed month = (month + 8) % 12 + 1

-- `_accrued_for`; `quantize` without a rounding mode rounds half to even.
unfoldable pub accrued_for : LeaveType → Option ℕ → ℕ
accrued_for t none = t.annual_quota
accrued_for t (some month) = elim t.accrual [
  | annual ↦ t.annual_quota
  | monthly ↦ min t.annual_quota (half_even t.annual_quota 12 * months_elapsed month)
]

abbrev pub is_balance : ℕ → ℕ → Text → LeaveBalance → Bool
is_balance employee leave_type year b =
    b.employee == employee
    && (b.leave_type == leave_type && (text_eq b.financial_year year && not b.deleted))

-- The refresh of a balance that exists.
unfoldable pub refresh : ℕ → ℕ → LeaveBalance → LeaveBalance
refresh quota accrued b = record b {
  entitled = quota;
  accrued = if ltb b.accrued accrued then accrued else b.accrued;
}

-- `ensure_balance`: the balance and the rows after it.
unfoldable pub ensure_balance :
    ℕ → LeaveType → Text → Option ℕ → List LeaveBalance → List LeaveBalance
ensure_balance employee t year month rows =
    let accrued = accrued_for t month in
    let fresh : LeaveBalance = record {
      employee = employee;
      leave_type = t.id;
      financial_year = year;
      entitled = t.annual_quota;
      accrued = accrued;
      used = 0;
      deleted = false;
    } in
    if is_some (find_first (is_balance employee t.id year) rows)
    then update_first (is_balance employee t.id year) (refresh t.annual_quota accrued) rows
    else fresh ∷ rows

-- `_leave_working_days`
unfoldable pub leave_working_days : WorkCalendarConfig → List Holiday → ℕ → ℕ → ℕ → List ℕ
leave_working_days cfg table company start last =
    select (λ d. is_working_day d cfg.weekly_offs (holiday_dates company start last table))
      (days start last)

abbrev pub is_pending : LeaveStatus → Bool
is_pending pending = true
is_pending approved = false
is_pending rejected = false
is_pending cancelled = false

abbrev pub is_approved : LeaveStatus → Bool
is_approved pending = false
is_approved approved = true
is_approved rejected = false
is_approved cancelled = false

-- A request that blocks its dates.
abbrev pub occupies : LeaveRequest → Bool
occupies r = not r.deleted && (is_pending r.status || is_approved r.status)

abbrev pub overlaps : ℕ → ℕ → ℕ → ℕ → LeaveRequest → Bool
overlaps company employee start last r =
    (r.company == company && r.employee == employee)
    && ((not (ltb last r.start_date) && not (ltb r.end_date start)) && occupies r)

pub record Payload : Type 0 where
  pub employee : ℕ
  pub leave_type : ℕ
  pub start_date : ℕ
  pub end_date : ℕ
  pub half_day : Bool

abbrev pub is_empty : List ℕ → Bool
is_empty [] = true
is_empty (d ∷ ds) = false

abbrev pub new_request : ℕ → ℕ → Payload → List ℕ → Option ℕ → LeaveRequest
new_request id company p working by = record {
  id = id;
  company = company;
  employee = p.employee;
  leave_type = p.leave_type;
  start_date = p.start_date;
  end_date = p.end_date;
  days = if p.half_day then 50 else 100 * length working;
  half_day = p.half_day;
  status = pending;
  requested_by = by;
  approved_by = none;
  deleted = false;
}

unfoldable pub create_request :
    WorkCalendarConfig → List Holiday → ℕ → ℕ → Payload → Option ℕ → Db → Outcome Db
create_request cfg table id company p by db =
    let working = leave_working_days cfg table company p.start_date p.end_date in
    raise_if (ltb p.end_date p.start_date) bad_request (
      raise_if (p.half_day && not (p.start_date == p.end_date)) bad_request (
        found_or (get_type company p.leave_type db) not_found (λ t.
          raise_if (any (overlaps company p.employee p.start_date p.end_date) db.requests) conflict
            (raise_if (is_empty working) bad_request
              (ok (record db { requests = new_request id company p working by ∷ db.requests }))))))

abbrev pub is_request : ℕ → ℕ → LeaveRequest → Bool
is_request company id r = r.id == id && (r.company == company && not r.deleted)

-- `_get_request`
abbrev pub get_request : ℕ → ℕ → Db → Option LeaveRequest
get_request company id db = find_first (is_request company id) db.requests

-- The decision that is written on a request.
unfoldable pub decide : LeaveStatus → Option ℕ → LeaveRequest → LeaveRequest
decide status actor r = record r { status = status; approved_by = actor }

abbrev pub same_user : Option ℕ → Option ℕ → Bool
same_user none _ = false
same_user (some a) none = false
same_user (some a) (some b) = b == a

unfoldable pub use_days : ℕ → LeaveBalance → LeaveBalance
use_days n b = record b { used = b.used + n }

unfoldable pub restore_days : ℕ → LeaveBalance → LeaveBalance
restore_days n b = record b { used = b.used - n }

-- The balance of the request, refreshed and charged; `ensure_balance` always leaves a row to find.
unfoldable pub charge :
    LeaveType → ℕ → LeaveRequest → List LeaveBalance → Outcome (List LeaveBalance)
charge t month r rows =
    let mine = is_balance r.employee t.id default_financial_year in
    let rows' = ensure_balance r.employee t default_financial_year (some month) rows in
    found_or (find_first mine rows') conflict (λ b.
      raise_if (ltb b.accrued (b.used + r.days)) conflict
        (ok (update_first mine (use_days r.days) rows')))

-- Only a paid leave is charged.
unfoldable pub consume :
    LeaveType → ℕ → LeaveRequest → List LeaveBalance → Outcome (List LeaveBalance)
consume t month r rows = if t.is_paid then charge t month r rows else ok rows

unfoldable pub approve_request : WorkCalendarConfig → ℕ → ℕ → ℕ → Option ℕ → Db → Outcome Db
approve_request cfg month company id approver db =
    found_or (get_request company id db) not_found (λ r.
      raise_if (not (is_pending r.status)) conflict (
        raise_if (cfg.enforce_maker_checker && same_user approver r.requested_by) conflict (
          found_or (get_type company r.leave_type db) not_found (λ t.
            then_ok (consume t month r db.balances) (λ rows. ok (record db {
              balances = rows;
              requests =
                  update_first (is_request company id) (decide approved approver) db.requests;
            }))))))

-- `_decide_no_balance`
unfoldable pub decide_no_balance : ℕ → ℕ → LeaveStatus → Option ℕ → Db → Outcome Db
decide_no_balance company id status actor db = found_or (get_request company id db) not_found (λ r.
    raise_if (not (is_pending r.status)) conflict (
      ok (record db {
        requests = update_first (is_request company id) (decide status actor) db.requests;
      })))

abbrev pub reject_request : ℕ → ℕ → Option ℕ → Db → Outcome Db
reject_request company id actor db = decide_no_balance company id rejected actor db

-- The balance of a request that was approved, with the days given back.
unfoldable pub give_back : LeaveType → ℕ → LeaveRequest → List LeaveBalance → List LeaveBalance
give_back t month r rows =
    update_first (is_balance r.employee t.id default_financial_year) (restore_days r.days)
      (ensure_balance r.employee t default_financial_year (some month) rows)

-- Only an approved, paid leave is given back.
unfoldable pub refund :
    ℕ → LeaveRequest → Option LeaveType → List LeaveBalance → Outcome (List LeaveBalance)
refund month r o rows =
    if is_approved r.status
    then found_or o not_found (λ t. ok (if t.is_paid then give_back t month r rows else rows))
    else ok rows

unfoldable pub cancel_request : ℕ → ℕ → ℕ → Option ℕ → Db → Outcome Db
cancel_request month company id actor db = found_or (get_request company id db) not_found (λ r.
    raise_if (not (is_pending r.status || is_approved r.status)) conflict (
      then_ok (refund month r (get_type company r.leave_type db) db.balances) (λ rows.
        ok (record db {
          balances = rows;
          requests = update_first (is_request company id) (decide cancelled actor) db.requests;
        }))))
