-- ===== src/Cycle/Examples.antt =====
-- A cycle with one employee who is paid by the hour.
use croar_backend_new.Prelude.{
  ◌≡◌, refl, true, false, some, none, List, [], ◌∷◌, map, All, update_where, ◌==◌,
}
use croar_backend_new.Prelude.Int.{pos, ◌+ℤ◌}
use croar_backend_new.Http.{ok}
use croar_backend_new.Text.{codes}
use croar_backend_new.Statutory.{pf_defaults, esi_wage_limit, esi_employee_rate, esi_employer_rate}
use croar_backend_new.Tax.{tds_defaults}
use croar_backend_new.Payslip.Structure.{SalaryStructure, hourly}
use croar_backend_new.Timesheet.{
  Timesheet, PayrollCycleStatus, draft, processing, approved, attendance,
}
use croar_backend_new.Cycle.{
  Employee, Totals, Db, Company, run_payroll, pay_all, roll_up, skipped, approve_cycle, mark_paid,
  mark_row, set_status,
}
use croar_backend_new.Cycle.Run.{IsBalancedRow, run_payroll-IsBalanced}
use croar_backend_new.Cycle.Lifecycle.{allows, approve, step-allows, step-locked, pay}

abbrev firm : Company
firm = record {
  working_days = pos 2600;
  statutory = record {
    pf = pf_defaults;
    esi_wage_limit = esi_wage_limit;
    esi_employee_rate = esi_employee_rate;
    esi_employer_rate = esi_employer_rate;
    tds = tds_defaults;
  };
  country = codes "India";
}

abbrev wages : SalaryStructure
wages = record {
  ctc = pos 0;
  pay_frequency = hourly;
  hourly_rate = pos 25_000;
  components = [];
  default_deductions = [];
  lop_days = pos 0;
  pf_enabled = false;
  pf_cap_at_ceiling = none;
  pf_wage_codes = [];
  esi_enabled = false;
  pt_enabled = false;
  tds_enabled = false;
}

-- 120 hours.
abbrev hours : Timesheet
hours = record {
  employee = 5;
  mode = attendance;
  status = approved;
  entries = [];
  worked_days = pos 0;
  lop_days = 0;
  half_days = 0;
  total_hours = 12_000;
  submitted_by = none;
  approved_by = none;
}

abbrev workers : List Employee
workers =
    record {
      id = 5;
      state = none;
      structure = some wages;
      approved_timesheet = some hours;
      adjustments = [];
      tax_profile = none;
    }
    ∷ []

abbrev start : Db
start = record { cycle = record { id = 1; status = draft; totals = none }; payslips = [] }

abbrev ran : Db
ran = record {
  cycle = record {
    id = 1;
    status = processing;
    totals = some (roll_up 1 (pay_all firm 1 workers []));
  };
  payslips = pay_all firm 1 workers [];
}

runs : run_payroll firm workers start ≡ ok (ran, skipped firm workers)
unfolding run_payroll
runs = refl

run_payroll-IsBalanced_example :
    All IsBalancedRow ran.payslips
    × ((t : Totals) × (ran.cycle.totals ≡ some t) × (t.net +ℤ t.deductions ≡ t.gross))
run_payroll-IsBalanced_example =
    run_payroll-IsBalanced firm workers start ran (skipped firm workers) runs tt

abbrev signed : Db
signed = set_status approved ran

signs : approve_cycle ran ≡ ok signed
unfolding approve_cycle
signs = refl

step-allows_example : allows processing approved ≡ true
unfolding set_status
step-allows_example = step-allows ran signed (approve signs)

abbrev settled : Db
settled = record {
  cycle = record {
    id = 1;
    status = PayrollCycleStatus.paid;
    totals = some (roll_up 1 (pay_all firm 1 workers []));
  };
  payslips = update_where (λ r. r.cycle == 1) mark_row (pay_all firm 1 workers []);
}

settles : mark_paid signed ≡ ok settled
unfolding mark_paid set_status
settles = refl

step-locked_example : map (λ r. r.payslip) settled.payslips ≡ map (λ r. r.payslip) signed.payslips
unfolding set_status
step-locked_example = step-locked signed settled (pay settles) refl
