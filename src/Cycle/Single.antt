-- ===== src/Cycle/Single.antt =====
-- The key of the payslips: the cycle and the employee.
use croar_backend_new.Prelude.{
  ℕ, ◌≡◌, refl, ap, Bool, false, Bool-cases, inl, inr, Option, none, some, List, [], ◌∷◌, any,
  update_first, not,
}
use croar_backend_new.Prelude.Int.{ℤ}
use croar_backend_new.Http.{ok, conflict, raise_if_ok, ok-inj}
use croar_backend_new.Payslip.{Payslip}
use croar_backend_new.Payslip.Structure.{SalaryStructure}
use croar_backend_new.Timesheet.{editable_cycle}
use croar_backend_new.Cycle.{
  Row, Employee, Db, Company, payslip_for, lop_for, is_hourly, is_row, refresh, upsert, store,
  pay_employee, pay_all, run_payroll,
}

-- No two rows have the cycle and the employee in common.
abbrev pub IsSingle : List Row → Type 0
IsSingle [] = Unit
IsSingle (r ∷ rows) = (any (is_row r.cycle r.employee) rows ≡ false) × IsSingle rows

-- Refreshing a row keeps the keys.
module _ (p : Row → Bool) (slip : Payslip) (lop : ℤ) (by_hour : Bool) where
  any-refresh :
      (cycle employee : ℕ) (rows : List Row)
      → any (is_row cycle employee) (update_first p (refresh slip lop by_hour) rows)
        ≡ any (is_row cycle employee) rows
  unfolding refresh
  any-refresh cycle employee [] = refl
  any-refresh cycle employee (r ∷ rows) = elim (Bool-cases (p r)) [
    | inl y ↦ rw y refl
    | inr n ↦ rw (n, any-refresh cycle employee rows) refl
  ]

  refresh-IsSingle :
      (rows : List Row) → IsSingle rows → IsSingle (update_first p (refresh slip lop by_hour) rows)
  unfolding refresh
  refresh-IsSingle [] h = tt
  refresh-IsSingle (r ∷ rows) (here, h) = elim (Bool-cases (p r)) [
    | inl y ↦ rw y (here, h)
    | inr n ↦ rw n (rw (any-refresh r.cycle r.employee rows) here, refresh-IsSingle rows h)
  ]

store-IsSingle :
    (cycle employee : ℕ) (lop : ℤ) (by_hour : Bool) (o : Option Payslip) (rows : List Row)
    → IsSingle rows
    → IsSingle (store cycle employee lop by_hour o rows)
unfolding upsert
store-IsSingle cycle employee lop by_hour none rows h = h
store-IsSingle cycle employee lop by_hour (some p) rows h =
    elim (Bool-cases (any (is_row cycle employee) rows)) [
      | inl e ↦ rw e (refresh-IsSingle (is_row cycle employee) p lop by_hour rows h)
      | inr e ↦ rw e (e, h)
    ]

pay_employee-IsSingle :
    (c : Company) (cycle : ℕ) (e : Employee) (o : Option SalaryStructure) (rows : List Row)
    → IsSingle rows
    → IsSingle (pay_employee c cycle e o rows)
pay_employee-IsSingle c cycle e none rows h = h
pay_employee-IsSingle c cycle e (some st) rows h =
    store-IsSingle cycle e.id (lop_for st e) (is_hourly st.pay_frequency) (payslip_for c st e) rows
      h

pay_all-IsSingle :
    (c : Company) (cycle : ℕ) (es : List Employee) (rows : List Row)
    → IsSingle rows
    → IsSingle (pay_all c cycle es rows)
unfolding pay_all
pay_all-IsSingle c cycle [] rows h = h
pay_all-IsSingle c cycle (e ∷ es) rows h =
    pay_all-IsSingle c cycle es _ (pay_employee-IsSingle c cycle e e.structure rows h)

-- A run that succeeds keeps at most one payslip for a cycle and an employee, however often it is
-- repeated.
pub run_payroll-IsSingle :
    (c : Company) (es : List Employee) (db after : Db) (out : List ℕ)
    → run_payroll c es db ≡ ok (after, out)
    → IsSingle db.payslips
    → IsSingle after.payslips
unfolding run_payroll
run_payroll-IsSingle c es db after out h u =
    let (_, k) = raise_if_ok (not (editable_cycle db.cycle.status)) conflict _ (after, out) h in
    rw (← ap (λ x. x.0) (ok-inj _ (after, out) k)) (pay_all-IsSingle c db.cycle.id es db.payslips u)
