-- ===== src/Leave/Examples.antt =====
-- A day of paid leave that is filed and approved.
use croar_backend_new.Prelude.{◌≡◌, refl, true, false, some, none, [], ◌∷◌, All}
use croar_backend_new.Http.{ok, raise, conflict}
use croar_backend_new.Money.{half_even}
use croar_backend_new.Calendar.{WorkCalendarConfig, is_working_day, days_from, holiday_dates}
use croar_backend_new.Leave.{
  LeaveType, LeaveRequest, Db, Payload, monthly, pending, approved, accrued_for, refresh,
  ensure_balance, leave_working_days, create_request, decide, use_days, restore_days, charge,
  consume, approve_request, decide_no_balance, give_back, refund, cancel_request,
  default_financial_year,
}
use croar_backend_new.Leave.Overlap.{IsDisjoint, create, approve, step-IsDisjoint}
use croar_backend_new.Leave.Balances.{IsWithin, step-IsWithin}

-- Ten days a year, accrued by month.
abbrev casual : LeaveType
casual = record {
  id = 3;
  company = 7;
  is_paid = true;
  annual_quota = 1000;
  accrual = monthly;
  deleted = false;
}

abbrev office : WorkCalendarConfig
office = record {
  use_calendar_working_days = true;
  weekly_offs = 5 ∷ 6 ∷ [];
  enforce_maker_checker = true;
}

abbrev start : Db
start = record { types = casual ∷ []; balances = []; requests = [] }

abbrev request : LeaveRequest
request = record {
  id = 1;
  company = 7;
  employee = 5;
  leave_type = 3;
  start_date = 739_643;
  end_date = 739_643;
  days = 100;
  half_day = false;
  status = pending;
  requested_by = some 5;
  approved_by = none;
  deleted = false;
}

abbrev filed : Db
filed = record start { requests = request ∷ [] }

abbrev day : Payload
day = record {
  employee = 5;
  leave_type = 3;
  start_date = 739_643;
  end_date = 739_643;
  half_day = false;
}

program : Unit {0}
unfolding accrued_for refresh ensure_balance leave_working_days create_request decide use_days
    restore_days charge consume approve_request decide_no_balance give_back refund cancel_request
    is_working_day days_from holiday_dates half_even
program = tt

-- In March the credit is 9.96 days of the ten.
march : accrued_for casual (some 3) ≡ 996
unfolding program
march = refl

file : create_request office [] 1 7 day (some 5) start ≡ ok filed
unfolding program
file = refl

-- In January ten months have accrued.
abbrev granted : Db
granted = record filed {
  balances =
      record {
        employee = 5;
        leave_type = 3;
        financial_year = default_financial_year;
        entitled = 1000;
        accrued = 830;
        used = 100;
        deleted = false;
      }
      ∷ [];
  requests = record request { status = approved; approved_by = some 9 } ∷ [];
}

grant : approve_request office 1 7 1 (some 9) filed ≡ ok granted
unfolding program
grant = refl

-- Whoever filed the request cannot approve it.
self_approval : approve_request office 1 7 1 (some 5) filed ≡ raise conflict
unfolding program
self_approval = refl

step-IsDisjoint_example : IsDisjoint granted.requests
step-IsDisjoint_example =
    step-IsDisjoint filed granted (approve office 1 7 1 (some 9) grant)
      (step-IsDisjoint start filed (create office [] 1 7 day (some 5) file) tt)

step-IsWithin_example : All IsWithin granted.balances
step-IsWithin_example = step-IsWithin filed granted (approve office 1 7 1 (some 9) grant) tt
