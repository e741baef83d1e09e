-- ===== src/Cycle/Lifecycle.antt =====
-- The lifecycle of a payroll cycle as steps.
use croar_backend_new.Prelude.{
  not-false, ℕ, ◌≡◌, refl, ap, Bool, true, false, not, Bool-cases, inl, inr, List, [], ◌∷◌, map,
  update_where, update_yes, update_no, ◌==◌,
}
use croar_backend_new.Http.{ok, conflict, raise_if_ok, ok-inj}
use croar_backend_new.Timesheet.{
  PayrollCycleStatus, draft, processing, approved, paid, cancelled, editable_cycle,
}
use croar_backend_new.Cycle.{
  Row, Employee, Db, Company, run_payroll, is_processing, is_approved, is_paid, set_status,
  approve_cycle, mark_row, mark_paid, cancel_cycle,
}

-- An operation on a cycle that succeeds.
pub data Step (s t : Db) : Type 0 where
  run :
      (c : Company) (es : List Employee) (out : List ℕ)
      → run_payroll c es s ≡ ok (t, out)
      → Step s t
  approve : approve_cycle s ≡ ok t → Step s t
  pay : mark_paid s ≡ ok t → Step s t
  cancel : cancel_cycle s ≡ ok t → Step s t

-- The moves that the lifecycle allows.
abbrev pub allows : PayrollCycleStatus → PayrollCycleStatus → Bool
allows draft processing = true
allows processing processing = true
allows processing approved = true
allows approved paid = true
allows draft cancelled = true
allows processing cancelled = true
allows approved cancelled = true
allows cancelled cancelled = true
allows _ _ = false

runs : (s : PayrollCycleStatus) → editable_cycle s ≡ true → allows s processing ≡ true
runs draft h = refl
runs processing h = refl
runs approved h = cc
runs paid h = cc
runs cancelled h = cc

approves : (s : PayrollCycleStatus) → is_processing s ≡ true → allows s approved ≡ true
approves processing h = refl
approves draft h = cc
approves approved h = cc
approves paid h = cc
approves cancelled h = cc

pays : (s : PayrollCycleStatus) → is_approved s ≡ true → allows s paid ≡ true
pays approved h = refl
pays draft h = cc
pays processing h = cc
pays paid h = cc
pays cancelled h = cc

cancels : (s : PayrollCycleStatus) → is_paid s ≡ false → allows s cancelled ≡ true
cancels draft h = refl
cancels processing h = refl
cancels approved h = refl
cancels cancelled h = refl
cancels paid h = cc

mark_payslips :
    (p : Row → Bool) (rows : List Row)
    → map (λ r. r.payslip) (update_where p mark_row rows) ≡ map (λ r. r.payslip) rows
mark_payslips p [] = refl
mark_payslips p (r ∷ rows) = elim (Bool-cases (p r)) [
  | inl e ↦ rw (update_yes p r rows mark_row e, mark_payslips p rows) refl
  | inr e ↦ rw (update_no p r rows mark_row e, mark_payslips p rows) refl
]

differ : (b : Bool) → b ≡ true → b ≡ false → ⊥
differ b h k = cc

-- Every step follows the lifecycle: a run leaves a draft or processed cycle processed, only a processed
-- cycle is approved, only an approved one is paid, and a paid cycle takes no step at all.
pub step-allows : (s t : Db) → Step s t → allows s.cycle.status t.cycle.status ≡ true
unfolding run_payroll approve_cycle mark_paid cancel_cycle set_status
step-allows s t (run c es out h) =
    let (e, k) = raise_if_ok (not (editable_cycle s.cycle.status)) conflict _ (t, out) h in
    rw (← ap (λ x. x.0) (ok-inj _ (t, out) k)) (runs s.cycle.status (not-false _ e))
step-allows s t (approve h) =
    let (e, k) = raise_if_ok (not (is_processing s.cycle.status)) conflict _ t h in
    rw (← ok-inj (set_status approved s) t k) (approves s.cycle.status (not-false _ e))
step-allows s t (pay h) =
    let (e, k) = raise_if_ok (not (is_approved s.cycle.status)) conflict _ t h in
    rw (← ap (λ (x : Db). x.cycle) (ok-inj _ t k)) (pays s.cycle.status (not-false _ e))
step-allows s t (cancel h) =
    let (e, k) = raise_if_ok (is_paid s.cycle.status) conflict _ t h in
    rw (← ok-inj (set_status cancelled s) t k) (cancels s.cycle.status e)

-- Once a cycle is approved, paid or cancelled, no step changes what its payslips, or those of another
-- cycle, pay.
pub step-locked :
    (s t : Db)
    → Step s t
    → editable_cycle s.cycle.status ≡ false
    → map (λ r. r.payslip) t.payslips ≡ map (λ r. r.payslip) s.payslips
unfolding run_payroll approve_cycle mark_paid cancel_cycle set_status
step-locked s t (run c es out h) l =
    let (e, k) = raise_if_ok (not (editable_cycle s.cycle.status)) conflict _ (t, out) h in
    absurd (differ (editable_cycle s.cycle.status) (not-false _ e) l)
step-locked s t (approve h) l =
    let (_, k) = raise_if_ok (not (is_processing s.cycle.status)) conflict _ t h in
    rw (← ok-inj (set_status approved s) t k) refl
step-locked s t (pay h) l =
    let (_, k) = raise_if_ok (not (is_approved s.cycle.status)) conflict _ t h in
    rw (← ap (λ (x : Db). x.payslips) (ok-inj _ t k))
      (mark_payslips (λ r. r.cycle == s.cycle.id) s.payslips)
step-locked s t (cancel h) l =
    let (_, k) = raise_if_ok (is_paid s.cycle.status) conflict _ t h in
    rw (← ok-inj (set_status cancelled s) t k) refl
