-- ===== src/Cycle/Payslips.antt =====
-- The payslips that a run computes (app/services/payroll/payroll_service.py).
use croar_backend_new.Prelude.{◌≡◌, refl, Bool, true, false, Option, none, some, if◌then◌else◌}
use croar_backend_new.Prelude.Int.{ℤ, ◌+ℤ◌}
use croar_backend_new.Payslip.{
  Payslip, Result, ok, raise, compute_payslip, compute_hourly_payslip, unless_raised,
}
use croar_backend_new.Payslip.Structure.{SalaryStructure, Context}
use croar_backend_new.Payslip.Totals.{compute_payslip_sums}
use croar_backend_new.Timesheet.{Timesheet}
use croar_backend_new.Cycle.{Employee, Company, hourly_of, payslip_for}

-- The net pay and the deductions make up the gross.
abbrev pub IsBalanced : Payslip → Type 0
IsBalanced p = p.net_pay +ℤ p.total_deductions ≡ p.gross_earnings

-- Of a payslip that may be missing.
abbrev pub AreBalanced : Option Payslip → Type 0
AreBalanced none = Unit
AreBalanced (some p) = IsBalanced p

unless_raised-AreBalanced :
    (st : SalaryStructure) (lop working : ℤ) (c : Context)
    → AreBalanced (unless_raised (compute_payslip st lop working c))
unless_raised-AreBalanced st lop working c = balanced (compute_payslip st lop working c) refl
  where
    balanced : (r : Result) → compute_payslip st lop working c ≡ r → AreBalanced (unless_raised r)
    balanced (ok p) e = let (_, _, _, h, _) = compute_payslip_sums st lop working c p e in h
    balanced (raise x) e = tt

hourly_of-AreBalanced :
    (c : Company) (st : SalaryStructure) (e : Employee) (ts : Option Timesheet)
    → AreBalanced (hourly_of c st e ts)
unfolding compute_hourly_payslip
hourly_of-AreBalanced c st e none = tt
hourly_of-AreBalanced c st e (some ts) = unless_raised-AreBalanced _ _ _ _

pub payslip_for-AreBalanced :
    (c : Company) (st : SalaryStructure) (e : Employee) → AreBalanced (payslip_for c st e)
unfolding payslip_for
payslip_for-AreBalanced c st e =
    either _ _ _ (hourly_of-AreBalanced c st e e.approved_timesheet)
      (unless_raised-AreBalanced st _ _ _)
  where
    either :
        (b : Bool) (x y : Option Payslip)
        → AreBalanced x
        → AreBalanced y
        → AreBalanced (if b then x else y)
    either true x y hx hy = hx
    either false x y hx hy = hy
