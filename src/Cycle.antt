-- ===== src/Cycle.antt =====
-- The payroll run and the lifecycle of a cycle (run_payroll, approve_cycle, mark_paid and
-- cancel_cycle of app/services/payroll/payroll_service.py). The payslips are the rows of the table,
-- the newest first; an employee is what the queries of the run find for one, and
-- is listed once.
pub mod Payslips
pub mod Run
pub mod Single
pub mod Lifecycle
mod Examples
use croar_backend_new.Prelude.{
  ℕ, suc, ◌+◌, Bool, true, false, not, ◌&&◌, ◌||◌, Option, none, some, is_some, List, [], ◌∷◌, map,
  length, select, any, update_first, update_where, ◌==◌, if◌then◌else◌,
}
use croar_backend_new.Prelude.Int.{ℤ, pos, ◌+ℤ◌, sum_ℤ}
use croar_backend_new.Http.{Outcome, ok, conflict, raise_if}
use croar_backend_new.Money.{Money}
use croar_backend_new.Text.{Text}
use croar_backend_new.Payslip.{Payslip, compute_payslip, compute_hourly_payslip, unless_raised}
use croar_backend_new.Payslip.Structure.{
  SalaryStructure, PayFrequency, hourly, monthly, weekly, Adjustment, TaxProfile, StatutoryConfig,
  Context,
}
use croar_backend_new.Timesheet.{
  Timesheet, PayslipStatus, pending, PayrollCycleStatus, draft, processing, approved, paid,
  cancelled, editable_cycle,
}

-- A row of the payslips.
pub record Row : Type 0 where
  pub cycle : ℕ
  pub employee : ℕ
  pub payslip : Payslip
  pub lop_days : ℤ
  pub paid_days : Option ℤ
  pub status : PayslipStatus

pub record Employee : Type 0 where
  pub id : ℕ
  pub state : Option Text
  pub structure : Option SalaryStructure
  pub approved_timesheet : Option Timesheet
  pub adjustments : List Adjustment
  pub tax_profile : Option TaxProfile

pub record Totals : Type 0 where
  pub headcount : ℕ
  pub gross : Money
  pub deductions : Money
  pub net : Money
  pub employer_cost : Money
  pub total_cost : Money

pub record Cycle : Type 0 where
  pub id : ℕ
  pub status : PayrollCycleStatus
  pub totals : Option Totals

pub record Db : Type 0 where
  pub cycle : Cycle
  pub payslips : List Row

-- What the run loads of the company: the working days of the period, the overrides, the country.
pub record Company : Type 0 where
  pub working_days : ℤ
  pub statutory : StatutoryConfig
  pub country : Text

abbrev pub context : Company → SalaryStructure → Employee → Context
context c st e = record {
  pt_state = e.state;
  adjustments = e.adjustments;
  tds_enabled = st.tds_enabled;
  tax_profile = e.tax_profile;
  statutory = c.statutory;
  country = c.country;
}

-- The loss of pay of a structure that is not hourly.
abbrev pub lop_of : SalaryStructure → Option Timesheet → ℤ
lop_of st none = st.lop_days
lop_of st (some ts) = pos ts.lop_days

abbrev pub hourly_of : Company → SalaryStructure → Employee → Option Timesheet → Option Payslip
hourly_of c st e none = none
hourly_of c st e (some ts) =
    unless_raised (compute_hourly_payslip st (pos ts.total_hours) (context c st e))

abbrev pub is_hourly : PayFrequency → Bool
is_hourly hourly = true
is_hourly monthly = false
is_hourly weekly = false

-- The payslip that is computed for an employee and the loss of pay it records; none where the
-- employee is skipped.
unfoldable pub payslip_for : Company → SalaryStructure → Employee → Option Payslip
payslip_for c st e =
    if is_hourly st.pay_frequency
    then hourly_of c st e e.approved_timesheet
    else unless_raised
        (compute_payslip st (lop_of st e.approved_timesheet) c.working_days (context c st e))

unfoldable pub lop_for : SalaryStructure → Employee → ℤ
lop_for st e = if is_hourly st.pay_frequency then pos 0 else lop_of st e.approved_timesheet

abbrev pub is_row : ℕ → ℕ → Row → Bool
is_row cycle employee r = r.cycle == cycle && r.employee == employee

-- The paid days of a payslip mean nothing where it is hourly.
abbrev pub paid_days_of : Bool → Payslip → Option ℤ
paid_days_of true p = none
paid_days_of false p = some p.paid_days

unfoldable pub refresh : Payslip → ℤ → Bool → Row → Row
refresh p lop by_hour r = record r {
  payslip = p;
  lop_days = lop;
  paid_days = paid_days_of by_hour p;
  status = pending;
}

-- The upsert on the cycle and the employee.
unfoldable pub upsert : ℕ → ℕ → Payslip → ℤ → Bool → List Row → List Row
upsert cycle employee p lop by_hour rows =
    if any (is_row cycle employee) rows
    then update_first (is_row cycle employee) (refresh p lop by_hour) rows
    else record {
      cycle = cycle;
      employee = employee;
      payslip = p;
      lop_days = lop;
      paid_days = paid_days_of by_hour p;
      status = pending;
    }
      ∷ rows

-- One employee of the loop, on the rows.
abbrev pub store : ℕ → ℕ → ℤ → Bool → Option Payslip → List Row → List Row
store cycle employee lop by_hour none rows = rows
store cycle employee lop by_hour (some p) rows = upsert cycle employee p lop by_hour rows

abbrev pub pay_employee : Company → ℕ → Employee → Option SalaryStructure → List Row → List Row
pay_employee c cycle e none rows = rows
pay_employee c cycle e (some st) rows =
    store cycle e.id (lop_for st e) (is_hourly st.pay_frequency) (payslip_for c st e) rows

unfoldable pub pay_all : Company → ℕ → List Employee → List Row → List Row
pay_all c cycle [] rows = rows
pay_all c cycle (e ∷ es) rows = pay_all c cycle es (pay_employee c cycle e e.structure rows)

-- The employees that the run reports as skipped.
abbrev pub is_skipped : Company → Employee → Option SalaryStructure → Bool
is_skipped c e none = true
is_skipped c e (some st) = not (is_some (payslip_for c st e))

unfoldable pub skipped : Company → List Employee → List ℕ
skipped c es = map (λ e. e.id) (select (λ e. is_skipped c e e.structure) es)

-- The roll-up over all payslips of the cycle.
unfoldable pub roll_up : ℕ → List Row → Totals
roll_up cycle rows =
    let mine = select (λ r. r.cycle == cycle) rows in
    let gross = sum_ℤ (map (λ r. r.payslip.gross_earnings) mine) in
    let employer = sum_ℤ (map (λ r. r.payslip.employer_total) mine) in
    record {
      headcount = length mine;
      gross = gross;
      deductions = sum_ℤ (map (λ r. r.payslip.total_deductions) mine);
      net = sum_ℤ (map (λ r. r.payslip.net_pay) mine);
      employer_cost = employer;
      total_cost = gross +ℤ employer;
    }

unfoldable pub run_payroll : Company → List Employee → Db → Outcome (Db × List ℕ)
run_payroll c es db =
    let rows = pay_all c db.cycle.id es db.payslips in
    raise_if (not (editable_cycle db.cycle.status)) conflict (
      ok (
        record {
          cycle = record {
            id = db.cycle.id;
            status = processing;
            totals = some (roll_up db.cycle.id rows);
          };
          payslips = rows;
        },
        skipped c es,
      ))

abbrev pub is_processing : PayrollCycleStatus → Bool
is_processing processing = true
is_processing draft = false
is_processing approved = false
is_processing paid = false
is_processing cancelled = false

abbrev pub is_approved : PayrollCycleStatus → Bool
is_approved approved = true
is_approved draft = false
is_approved processing = false
is_approved paid = false
is_approved cancelled = false

abbrev pub is_paid : PayrollCycleStatus → Bool
is_paid paid = true
is_paid draft = false
is_paid processing = false
is_paid approved = false
is_paid cancelled = false

unfoldable pub set_status : PayrollCycleStatus → Db → Db
set_status s db = record db {
  cycle = record { id = db.cycle.id; status = s; totals = db.cycle.totals };
}

unfoldable pub approve_cycle : Db → Outcome Db
approve_cycle db =
    raise_if (not (is_processing db.cycle.status)) conflict (ok (set_status approved db))

abbrev pub mark_row : Row → Row
mark_row r = record r { status = paid }

unfoldable pub mark_paid : Db → Outcome Db
mark_paid db = raise_if (not (is_approved db.cycle.status)) conflict (
    ok (record {
      cycle = record { id = db.cycle.id; status = paid; totals = db.cycle.totals };
      payslips = update_where (λ r. r.cycle == db.cycle.id) mark_row db.payslips;
    }))

unfoldable pub cancel_cycle : Db → Outcome Db
cancel_cycle db = raise_if (is_paid db.cycle.status) conflict (ok (set_status cancelled db))
