-- ===== src/Payslip/Totals.antt =====
-- The sums on a payslip against its lines (app/services/payroll/payroll_service.py).
use croar_backend_new.Prelude.{
  ◌≡◌, refl, ap, ◌∙◌, sym, if◌then◌else◌, Bool, true, false, Option, none, some, List, [], ◌∷◌,
  ◌++◌,
}
use croar_backend_new.Prelude.Int.{ℤ, pos, ◌+ℤ◌, ◌-ℤ◌, ltb_ℤ, int_laws}
use croar_backend_new.Money.{Money, Decimal, quantize}
use croar_backend_new.Text.{Text}
use croar_backend_new.Line.{Pay, pay, total, total-snoc}
use croar_backend_new.Intl.{Intl}
use croar_backend_new.Payslip.{
  Slip, deduct, deduct_all, deduct_positive, voluntary, apply_intl, apply_pf, apply_esi, apply_pt,
  apply_tds, adjust, apply_deductions, earned, Payslip, payslip_of, compute_payslip, ok, when,
}
use croar_backend_new.Payslip.Guards.{payslip_of_ok}
use mathlib.Core.Path.{subst}
use croar_backend_new.Payslip.Structure.{
  MoneyLine, AdjustmentKind, SalaryStructure, Context, Adjustment, StatutoryConfig, earning,
  deduction,
}
use croar_backend_new.Payslip.Earnings.{Table, multiplier, raw_earnings, prorate, prorate_lines}

-- The gross is the sum of the earnings, and the total the sum of the deductions.
pub record IsSummed (s : Slip) : Type 0 where
  pub grossed : s.gross ≡ total s.earnings
  pub deducted : s.total_deductions ≡ total s.deductions

deduct-IsSummed : (c : Text) (a : Money) (s : Slip) → IsSummed s → IsSummed (deduct c a s)
unfolding deduct
deduct-IsSummed c a s h = record {
  grossed = h.grossed;
  deducted = ap (λ t. t +ℤ a) h.deducted ∙ sym (total-snoc s.deductions (pay c a));
}

deduct_all-IsSummed : (ps : List Pay) (s : Slip) → IsSummed s → IsSummed (deduct_all ps s)
unfolding deduct_all
deduct_all-IsSummed [] s h = h
deduct_all-IsSummed (p ∷ ps) s h =
    deduct_all-IsSummed ps (deduct p.code p.amount s) (deduct-IsSummed p.code p.amount s h)

voluntary-IsSummed :
    (ls : List MoneyLine) (ref : Table) (s : Slip) → IsSummed s → IsSummed (voluntary ls ref s)
unfolding voluntary
voluntary-IsSummed [] ref s h = h
voluntary-IsSummed (l ∷ ls) ref s h = voluntary-IsSummed ls _ _ (deduct-IsSummed l.code _ s h)

-- Lines of the employer leave both sums alone.
contribute-IsSummed :
    (s : Slip) (ps : List Pay) → IsSummed s → IsSummed (record s { employer_contributions = ps })
contribute-IsSummed s ps h = record { grossed = h.grossed; deducted = h.deducted }

apply_intl-IsSummed : (i : Option Intl) (s : Slip) → IsSummed s → IsSummed (apply_intl i s)
unfolding apply_intl
apply_intl-IsSummed none s h = h
apply_intl-IsSummed (some i) s h = contribute-IsSummed _ _ (deduct_all-IsSummed i.employee s h)

if-IsSummed : (b : Bool) (s t : Slip) → IsSummed s → IsSummed t → IsSummed (if b then s else t)
if-IsSummed true s t p q = p
if-IsSummed false s t p q = q

deduct_positive-IsSummed :
    (c : Text) (a : Money) (s : Slip) → IsSummed s → IsSummed (deduct_positive c a s)
unfolding deduct_positive
deduct_positive-IsSummed c a s h =
    if-IsSummed (ltb_ℤ (pos 0) a) (deduct c a s) s (deduct-IsSummed c a s h) h

apply_pf-IsSummed :
    (st : SalaryStructure) (cfg : StatutoryConfig) (table : Table) (s : Slip)
    → IsSummed s
    → IsSummed (apply_pf st cfg table s)
unfolding apply_pf
apply_pf-IsSummed st cfg table s h = contribute-IsSummed _ _ (deduct-IsSummed _ _ s h)

apply_esi-IsSummed : (cfg : StatutoryConfig) (s : Slip) → IsSummed s → IsSummed (apply_esi cfg s)
unfolding apply_esi
apply_esi-IsSummed cfg s h = if-IsSummed _ _ s (contribute-IsSummed _ _ (deduct-IsSummed _ _ s h)) h

adjust-IsSummed : (as' : List Adjustment) (s : Slip) → IsSummed s → IsSummed (adjust as' s)
unfolding adjust
adjust-IsSummed [] s h = h
adjust-IsSummed (a ∷ later) s h = adjust-IsSummed later _ (by_kind a.kind)
  where
    m : Money
    m = quantize a.amount

    by_kind :
        (k : AdjustmentKind)
        → IsSummed (elim k [
          | earning ↦ record s { earnings = s.earnings ++ pay a.code m ∷ []; gross = s.gross +ℤ m }
          | deduction ↦ deduct a.code m s
        ])
    by_kind earning = record {
      grossed = ap (λ t. t +ℤ m) h.grossed ∙ sym (total-snoc s.earnings (pay a.code m));
      deducted = h.deducted;
    }
    by_kind deduction = deduct-IsSummed a.code m s h

when-IsSummed :
    (b : Bool) (f : Slip → Slip) (s : Slip)
    → ((t : Slip) → IsSummed t → IsSummed (f t))
    → IsSummed s
    → IsSummed (when b f s)
unfolding when
when-IsSummed b f s keep h = if-IsSummed b (f s) s (keep s h) h

apply_deductions-IsSummed :
    (st : SalaryStructure) (c : Context) (raw : Money) (table : Table) (s : Slip)
    → IsSummed s
    → IsSummed (apply_deductions st c raw table s)
unfolding apply_deductions apply_pt apply_tds
apply_deductions-IsSummed st c raw table s h =
    when-IsSummed _ _ _ (λ t. deduct_positive-IsSummed _ _ t)
      (when-IsSummed _ _ _ (λ t. deduct_positive-IsSummed _ _ t)
        (when-IsSummed _ _ _ (apply_esi-IsSummed c.statutory) (
          when-IsSummed _ _ _ (apply_pf-IsSummed st c.statutory table)
            (apply_intl-IsSummed _ _ (voluntary-IsSummed st.default_deductions _ s h)))))

prorate_lines_gross :
    (m : Decimal) (ps : List Pay) (table : Table) (g : Money)
    → let p = prorate_lines m ps table g in p.gross ≡ g +ℤ total p.earnings
unfolding prorate_lines
prorate_lines_gross m [] table g = omega int_laws
prorate_lines_gross m (p ∷ ps) table g =
    let e = prorate m p in
    let ih = prorate_lines_gross m ps ((e.code, e.amount) ∷ table) (g +ℤ e.amount) in
    rw ih (omega int_laws)

payslip_of_sums :
    (st : SalaryStructure) (lop working : ℤ) (c : Context)
    → let p = payslip_of st lop working c in
      (p.gross_earnings ≡ total p.earnings) × (p.total_deductions ≡ total p.deductions)
unfolding payslip_of earned
payslip_of_sums st lop working c =
    let m = multiplier working lop in
    let e = prorate_lines_gross m (raw_earnings st).lines [] (pos 0) in
    let h = adjust-IsSummed c.adjustments _ (
      apply_deductions-IsSummed st c (raw_earnings st).gross _ _
        (record { grossed = e ∙ zero_add _; deducted = refl })) in
    (h.grossed, h.deducted)
  where
    zero_add : (a : Money) → pos 0 +ℤ a ≡ a
    zero_add a = omega int_laws

sub_add : (a b : ℤ) → a -ℤ b +ℤ b ≡ a
sub_add a b = omega int_laws

-- On every payslip that is computed, for every structure, declaration and country: the gross is the
-- sum of the earning lines, the total deductions are the sum of the deduction lines, the employer's
-- total is the sum of the employer's lines, the net pay and the deductions make up the gross, and
-- the paid days and the loss-of-pay days make up the working days.
pub compute_payslip_sums :
    (st : SalaryStructure) (lop working : ℤ) (c : Context) (p : Payslip)
    → compute_payslip st lop working c ≡ ok p
    → (p.gross_earnings ≡ total p.earnings)
      × (p.total_deductions ≡ total p.deductions)
      × (p.employer_total ≡ total p.employer_contributions)
      × (p.net_pay +ℤ p.total_deductions ≡ p.gross_earnings)
      × (p.paid_days +ℤ p.lop_days ≡ working)
unfolding payslip_of
compute_payslip_sums st lop working c p h =
    let (gross, total_deductions) = payslip_of_sums st lop working c in
    let e = payslip_of_ok st lop working c h in
    let at : Payslip = payslip_of st lop working c in
    subst
      (λ (q : Payslip).
        (q.gross_earnings ≡ total q.earnings)
        × (q.total_deductions ≡ total q.deductions)
        × (q.employer_total ≡ total q.employer_contributions)
        × (q.net_pay +ℤ q.total_deductions ≡ q.gross_earnings)
        × (q.paid_days +ℤ q.lop_days ≡ working))
      e
      (
        gross,
        total_deductions,
        refl,
        sub_add at.gross_earnings at.total_deductions,
        sub_add working lop,
      )
