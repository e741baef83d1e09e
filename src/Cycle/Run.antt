-- ===== src/Cycle/Run.antt =====
-- The payslips of a run and their totals (app/services/payroll/payroll_service.py).
use croar_backend_new.Prelude.{
  ℕ, ◌≡◌, refl, ap, Bool, not, Bool-cases, inl, inr, Option, none, some, List, [], ◌∷◌, map, All,
  All-update_first, All-select, any, ◌==◌,
}
use croar_backend_new.Prelude.Int.{ℤ, ◌+ℤ◌, sum_ℤ, int_laws}
use croar_backend_new.Http.{ok, conflict, raise_if_ok, ok-inj}
use croar_backend_new.Payslip.{Payslip}
use croar_backend_new.Payslip.Structure.{SalaryStructure}
use croar_backend_new.Timesheet.{editable_cycle}
use croar_backend_new.Cycle.{
  Row, Employee, Totals, Db, Company, payslip_for, lop_for, is_hourly, is_row, refresh, upsert,
  store, pay_employee, pay_all, roll_up, run_payroll,
}
use croar_backend_new.Cycle.Payslips.{IsBalanced, AreBalanced, payslip_for-AreBalanced}

abbrev pub IsBalancedRow : Row → Type 0
IsBalancedRow r = IsBalanced r.payslip

store-IsBalancedRow :
    (cycle employee : ℕ) (lop : ℤ) (by_hour : Bool) (o : Option Payslip) (rows : List Row)
    → AreBalanced o
    → All IsBalancedRow rows
    → All IsBalancedRow (store cycle employee lop by_hour o rows)
unfolding upsert refresh
store-IsBalancedRow cycle employee lop by_hour none rows b all = all
store-IsBalancedRow cycle employee lop by_hour (some p) rows b all =
    elim (Bool-cases (any (is_row cycle employee) rows)) [
      | inl e ↦ rw e (
          All-update_first IsBalancedRow (is_row cycle employee) (refresh p lop by_hour) rows
            (λ r h. b) all)
      | inr e ↦ rw e (b, all)
    ]

pay_employee-IsBalancedRow :
    (c : Company) (cycle : ℕ) (e : Employee) (o : Option SalaryStructure) (rows : List Row)
    → All IsBalancedRow rows
    → All IsBalancedRow (pay_employee c cycle e o rows)
pay_employee-IsBalancedRow c cycle e none rows all = all
pay_employee-IsBalancedRow c cycle e (some st) rows all =
    store-IsBalancedRow cycle e.id (lop_for st e) (is_hourly st.pay_frequency) (payslip_for c st e)
      rows (payslip_for-AreBalanced c st e) all

pay_all-IsBalancedRow :
    (c : Company) (cycle : ℕ) (es : List Employee) (rows : List Row)
    → All IsBalancedRow rows
    → All IsBalancedRow (pay_all c cycle es rows)
unfolding pay_all
pay_all-IsBalancedRow c cycle [] rows all = all
pay_all-IsBalancedRow c cycle (e ∷ es) rows all =
    pay_all-IsBalancedRow c cycle es _ (pay_employee-IsBalancedRow c cycle e e.structure rows all)

add_balanced : (a b c a' b' c' : ℤ) → a +ℤ b ≡ c → a' +ℤ b' ≡ c' → a +ℤ a' +ℤ (b +ℤ b') ≡ c +ℤ c'
add_balanced a b c a' b' c' h k = rw (← h, ← k) (omega int_laws)

sums_balanced :
    (rows : List Row)
    → All IsBalancedRow rows
    → sum_ℤ (map (λ r. r.payslip.net_pay) rows)
        +ℤ sum_ℤ (map (λ r. r.payslip.total_deductions) rows)
      ≡ sum_ℤ (map (λ r. r.payslip.gross_earnings) rows)
sums_balanced [] all = omega int_laws
sums_balanced (r ∷ rows) (here, all) =
    add_balanced r.payslip.net_pay r.payslip.total_deductions r.payslip.gross_earnings _ _ _ here
      (sums_balanced rows all)

-- A run that succeeds keeps every payslip balanced, earlier ones included, and the totals that it
-- writes on the cycle balance too: net pay and deductions make up the gross. The payslips before the
-- run were balanced.
pub run_payroll-IsBalanced :
    (c : Company) (es : List Employee) (db after : Db) (out : List ℕ)
    → run_payroll c es db ≡ ok (after, out)
    → All IsBalancedRow db.payslips
    → All IsBalancedRow after.payslips
      × ((t : Totals) × (after.cycle.totals ≡ some t) × (t.net +ℤ t.deductions ≡ t.gross))
unfolding run_payroll roll_up
run_payroll-IsBalanced c es db after out h all =
    let (_, k) = raise_if_ok (not (editable_cycle db.cycle.status)) conflict _ (after, out) h in
    let same = ok-inj _ (after, out) k in
    let rows = pay_all c db.cycle.id es db.payslips in
    let balanced = pay_all-IsBalancedRow c db.cycle.id es db.payslips all in
    let mine = All-select IsBalancedRow (λ r. r.cycle == db.cycle.id) rows balanced in
    rw (← ap (λ x. x.0) same) (balanced, (roll_up db.cycle.id rows, refl, sums_balanced _ mine))
