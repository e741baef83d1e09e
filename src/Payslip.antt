-- ===== src/Payslip.antt =====
-- `compute_payslip` and `compute_hourly_payslip` of app/services/payroll/payroll_service.py.
-- `Structure` has the inputs, `Earnings` the passes over the earning lines; this file has the
-- deductions and the whole calculation.
pub mod Structure
pub mod Earnings
pub mod Balance
pub mod Totals
pub mod Proration
pub mod Guards
mod Examples
use croar_backend_new.Prelude.{
  ℕ, ◌+◌, ◌*◌, Bool, true, false, not, ◌&&◌, Option, none, some, List, [], ◌∷◌, ◌++◌, is_some,
  if◌then◌else◌,
}
use croar_backend_new.Prelude.Int.{ℤ, pos, ◌+ℤ◌, ◌-ℤ◌, ltb_ℤ, leb_ℤ, sum_ℤ}
use croar_backend_new.Money.{Money, Decimal, decimal, cents, multiply, quantize, ◌*ℤ◌}
use croar_backend_new.Text.{Text, codes}
use croar_backend_new.Line.{Pay, pay, total}
use croar_backend_new.Statutory.{PfRules, Pf, Esi, Pt, compute_pf, compute_esi, compute_pt}
use croar_backend_new.Tax.{Regime, new, TdsInput, compute_tds}
use croar_backend_new.Intl.{Intl, compute}
use Structure.{
  LineType, fixed, MoneyLine, PayFrequency, monthly, SalaryStructure, AdjustmentKind, earning,
  deduction, Adjustment, TaxProfile, StatutoryConfig, Context,
}
use Earnings.{
  Table, ctc_code, amount_of, resolve_amount, period_ctc, Raw, raw_earnings, multiplier, Prorated,
  prorate_lines,
}

-- The variables of the calculation from the deductions on.
pub record Slip : Type 0 where
  pub earnings : List Pay
  pub gross : Money
  pub deductions : List Pay
  pub total_deductions : Money
  pub employer_contributions : List Pay

-- Appends a line and adds its amount to the running total.
unfoldable pub deduct : Text → Money → Slip → Slip
deduct c a s = record s {
  deductions = s.deductions ++ pay c a ∷ [];
  total_deductions = s.total_deductions +ℤ a;
}

-- The loop over `default_deductions`, over `ded_ref`.
unfoldable pub voluntary : List MoneyLine → Table → Slip → Slip
voluntary [] ref s = s
voluntary (l ∷ ls) ref s =
    let a = quantize (resolve_amount l.type ref s.gross) in
    voluntary ls ((l.code, a) ∷ ref) (deduct l.code a s)

unfoldable pub deduct_all : List Pay → Slip → Slip
deduct_all [] s = s
deduct_all (p ∷ ps) s = deduct_all ps (deduct p.code p.amount s)

-- The lines of KR, JP and US.
unfoldable pub apply_intl : Option Intl → Slip → Slip
apply_intl none s = s
apply_intl (some i) s =
    let s' = deduct_all i.employee s in
    record s' { employer_contributions = s'.employer_contributions ++ i.employer }

-- `structure.pf_wage_codes or ["BASIC"]`
abbrev wage_codes : List Text → List Text
wage_codes [] = codes "BASIC" ∷ []
wage_codes (c ∷ cs) = c ∷ cs

abbrev sum_codes : List Text → Table → Money
sum_codes [] table = pos 0
sum_codes (c ∷ cs) table = amount_of c table +ℤ sum_codes cs table

-- The sum of the wage lines, or the gross where that is not positive.
unfoldable pub pf_wage : SalaryStructure → Table → Money → Money
pf_wage st table gross =
    let wage = sum_codes (wage_codes st.pf_wage_codes) table in
    if leb_ℤ wage (pos 0) then gross else wage

-- A missing flag is true.
abbrev cap_of : Option Bool → Bool
cap_of none = true
cap_of (some b) = b

unfoldable pub apply_pf : SalaryStructure → StatutoryConfig → Table → Slip → Slip
apply_pf st cfg table s =
    let rules = cfg.pf in
    let pf =
      compute_pf (record rules { cap_at_ceiling = cap_of st.pf_cap_at_ceiling })
        (pf_wage st table s.gross) in
    let s' = deduct (codes "PF") pf.employee s in
    record s' {
      employer_contributions =
          s'.employer_contributions
          ++ pay (codes "PF_ER") pf.employer_epf ∷ pay (codes "EPS_ER") pf.employer_eps ∷ [];
    }

unfoldable pub apply_esi : StatutoryConfig → Slip → Slip
apply_esi cfg s =
    let esi = compute_esi cfg.esi_wage_limit cfg.esi_employee_rate cfg.esi_employer_rate s.gross in
    let s' = deduct (codes "ESI") esi.employee s in
    if esi.covered
    then record s' {
      employer_contributions = s'.employer_contributions ++ pay (codes "ESI_ER") esi.employer ∷ [];
    }
    else s

-- A line for an amount that is positive, and none for any other.
unfoldable pub deduct_positive : Text → Money → Slip → Slip
deduct_positive c a s = if ltb_ℤ (pos 0) a then deduct c a s else s

unfoldable pub apply_pt : Option Text → Slip → Slip
apply_pt state s = deduct_positive (codes "PT") (compute_pt state s.gross).amount s

-- The year's gross is twelve times the gross before loss of pay.
abbrev tds_input : Option TaxProfile → Money → TdsInput
tds_input none raw_gross = record {
  annual_gross = ◌*ℤ◌ raw_gross (pos 12);
  regime = new;
  declarations = record {
    declared_80c = pos 0;
    declared_80d = pos 0;
    declared_home_loan_interest = pos 0;
    declared_other = pos 0;
  };
  prev_employer_income = pos 0;
  prev_employer_tds = pos 0;
}
tds_input (some p) raw_gross = record {
  annual_gross = ◌*ℤ◌ raw_gross (pos 12);
  regime = p.tax_regime;
  declarations = p.declarations;
  prev_employer_income = p.prev_employer_income;
  prev_employer_tds = p.prev_employer_tds;
}

unfoldable pub apply_tds : StatutoryConfig → Option TaxProfile → Money → Slip → Slip
apply_tds cfg profile raw_gross =
    deduct_positive (codes "TDS") (compute_tds cfg.tds (tds_input profile raw_gross)).monthly_tds

-- The loop over the adjustments.
unfoldable pub adjust : List Adjustment → Slip → Slip
adjust [] s = s
adjust (a ∷ later) s =
    let m = quantize a.amount in
    let paid : Slip = record s {
      earnings = s.earnings ++ pay a.code m ∷ [];
      gross = s.gross +ℤ m;
    } in
    let next : Slip = elim a.kind [ earning ↦ paid | deduction ↦ deduct a.code m s ] in
    adjust later next

unfoldable pub when : Bool → (Slip → Slip) → Slip → Slip
when b f s = if b then f s else s

-- All that is deducted, in the order of the source; the Indian rules apply where no other country's
-- do.
unfoldable pub apply_deductions : SalaryStructure → Context → Money → Table → Slip → Slip
apply_deductions st c raw_gross table s =
    let s₁ = voluntary st.default_deductions (table ++ (ctc_code, period_ctc st) ∷ []) s in
    let intl = compute c.country s₁.gross none none in
    let india = not (is_some intl) in
    let s₂ = apply_intl intl s₁ in
    let s₃ = when (india && st.pf_enabled) (apply_pf st c.statutory table) s₂ in
    let s₄ = when (india && st.esi_enabled) (apply_esi c.statutory) s₃ in
    let s₅ = when (india && st.pt_enabled) (apply_pt c.pt_state) s₄ in
    when (india && c.tds_enabled) (apply_tds c.statutory c.tax_profile raw_gross) s₅

pub record Payslip : Type 0 where
  pub earnings : List Pay
  pub deductions : List Pay
  pub gross_earnings : Money
  pub total_deductions : Money
  pub net_pay : Money
  pub lop_days : ℤ
  pub paid_days : ℤ
  pub employer_contributions : List Pay
  pub employer_total : Money

-- The three `ValueError`s.
pub data ValueError : Type 0 where
  no_working_days negative_lop lop_exceeds : ValueError

pub data Result : Type 0 where
  ok : Payslip → Result
  raise : ValueError → Result

unfoldable pub earned : SalaryStructure → ℤ → ℤ → Prorated
earned st lop working = prorate_lines (multiplier working lop) (raw_earnings st).lines [] (pos 0)

-- The calculation behind the guards.
unfoldable pub payslip_of : SalaryStructure → ℤ → ℤ → Context → Payslip
payslip_of st lop working c =
    let p = earned st lop working in
    let start : Slip = record {
      earnings = p.earnings;
      gross = p.gross;
      deductions = [];
      total_deductions = pos 0;
      employer_contributions = [];
    } in
    let s = adjust c.adjustments (apply_deductions st c (raw_earnings st).gross p.by_code start) in
    record {
      earnings = s.earnings;
      deductions = s.deductions;
      gross_earnings = s.gross;
      total_deductions = s.total_deductions;
      net_pay = s.gross -ℤ s.total_deductions;
      lop_days = lop;
      paid_days = working -ℤ lop;
      employer_contributions = s.employer_contributions;
      employer_total = total s.employer_contributions;
    }

unfoldable pub compute_payslip : SalaryStructure → ℤ → ℤ → Context → Result
compute_payslip st lop working c =
    if leb_ℤ working (pos 0)
    then raise no_working_days
    else if ltb_ℤ lop (pos 0)
    then raise negative_lop
    else if ltb_ℤ working lop
    then raise lop_exceeds
    else ok (payslip_of st lop working c)

-- The structure that `compute_hourly_payslip` makes up; hours are in hundredths.
unfoldable pub hourly_structure : SalaryStructure → ℤ → SalaryStructure
hourly_structure st total_hours =
    let wage = quantize (multiply (cents total_hours) (cents st.hourly_rate)) in
    record st {
      ctc = pos 0;
      pay_frequency = monthly;
      components = record { code = codes "WAGES"; type = fixed (cents wage) } ∷ [];
      lop_days = pos 0;
    }

unfoldable pub compute_hourly_payslip : SalaryStructure → ℤ → Context → Result
compute_hourly_payslip st total_hours =
    compute_payslip (hourly_structure st total_hours) (pos 0) (pos 100)

-- What the payroll run goes on with: none where it catches a `ValueError`.
abbrev pub unless_raised : Result → Option Payslip
unless_raised (ok p) = some p
unless_raised (raise e) = none
