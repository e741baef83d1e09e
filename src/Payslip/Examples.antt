-- ===== src/Payslip/Examples.antt =====
-- A monthly salary at 2.5 days of loss of pay in 26 working days.
use croar_backend_new.Prelude.{
  ◌≡◌, refl, ◌*◌, ◌≤◌, length, true, false, none, some, [], ◌∷◌, arith, All,
}
use croar_backend_new.Prelude.Int.{pos, pos_part, neg_part, ◌+ℤ◌, ◌-ℤ◌, ◌≤ℤ◌}
use croar_backend_new.Money.{
  decimal, quantize, half_up, half_up_ℕ, context, ◌*ℤ◌, half_even, places,
}
use croar_backend_new.Text.{codes}
use croar_backend_new.Line.{total}
use croar_backend_new.Statutory.{pf_defaults, esi_wage_limit, esi_employee_rate, esi_employer_rate}
use croar_backend_new.Tax.{tds_defaults}
use croar_backend_new.Payslip.Structure.{
  fixed, percent, balance, monthly, SalaryStructure, Context, earning,
}
use croar_backend_new.Payslip.Earnings.{
  period_ctc, resolve_amount, resolve_lines, next_table, next_gross, put_line, balance_share,
  add_shares, raw_earnings, times, multiplier, prorate, prorate_lines,
}
use croar_backend_new.Payslip.{earned, payslip_of, compute_payslip, ok}
use croar_backend_new.Payslip.Totals.{compute_payslip_sums}
use croar_backend_new.Payslip.Balance.{resolved, remainder, raw_earnings_ctc}
use croar_backend_new.Payslip.Proration.{earned_bounds}

-- 600_000 a year: half of the month's 50_000 is basic pay, 40 percent of it rent allowance, and the
-- special allowance is what is left.
abbrev staff : SalaryStructure
staff = record {
  ctc = pos 60_000_000;
  pay_frequency = monthly;
  hourly_rate = pos 0;
  components =
      record { code = codes "BASIC"; type = percent (decimal 50 1) (codes "CTC") }
      ∷ record { code = codes "HRA"; type = percent (decimal 40 1) (codes "BASIC") }
      ∷ record { code = codes "SPECIAL"; type = balance }
      ∷ [];
  default_deductions = record { code = codes "CANTEEN"; type = fixed (decimal 500 1) } ∷ [];
  lop_days = pos 250;
  pf_enabled = true;
  pf_cap_at_ceiling = none;
  pf_wage_codes = [];
  esi_enabled = false;
  pt_enabled = true;
  tds_enabled = true;
}

abbrev setting : Context
setting = record {
  pt_state = some (codes "MH");
  adjustments = record { kind = earning; code = codes "BONUS"; amount = decimal 1000 1 } ∷ [];
  tds_enabled = true;
  tax_profile = none;
  statutory = record {
    pf = pf_defaults;
    esi_wage_limit = esi_wage_limit;
    esi_employee_rate = esi_employee_rate;
    esi_employer_rate = esi_employer_rate;
    tds = tds_defaults;
  };
  country = codes "India";
}

program : Unit {0}
unfolding period_ctc resolve_amount resolve_lines next_table next_gross put_line balance_share
    add_shares raw_earnings times multiplier prorate prorate_lines earned quantize half_up half_up_ℕ
    context ◌*ℤ◌ ◌+ℤ◌ ◌-ℤ◌ half_even places
program = tt

staff_raw : (raw_earnings staff).gross ≡ pos 5_000_000
unfolding program
staff_raw = refl

-- 50_000 at 23.5 of 26 days.
staff-earned : (earned staff (pos 250) (pos 2600)).gross ≡ pos 4_519_230
unfolding program
staff-earned = refl

staff_ok :
    compute_payslip staff (pos 250) (pos 2600) setting
    ≡ ok (payslip_of staff (pos 250) (pos 2600) setting)
unfolding compute_payslip
staff_ok = refl

compute_payslip_sums_example :
    let p = payslip_of staff (pos 250) (pos 2600) setting in
    (p.gross_earnings ≡ total p.earnings)
    × (p.total_deductions ≡ total p.deductions)
    × (p.employer_total ≡ total p.employer_contributions)
    × (p.net_pay +ℤ p.total_deductions ≡ p.gross_earnings)
    × (p.paid_days +ℤ p.lop_days ≡ pos 2600)
compute_payslip_sums_example =
    compute_payslip_sums staff (pos 250) (pos 2600) setting
      (payslip_of staff (pos 250) (pos 2600) setting) staff_ok

staff_balances : length (resolved staff).balances ≡ 1
unfolding program
staff_balances = refl

staff-remainder : remainder staff ≡ pos 1_500_000
unfolding program
staff-remainder = refl

raw_earnings_ctc_example :
    let raw = raw_earnings staff in
    let n = length (resolved staff).balances in
    let gap = raw.gross -ℤ period_ctc staff in
    (raw.gross ≡ total raw.lines) × ((2 * pos_part gap ≤ n) × (2 * neg_part gap ≤ n))
raw_earnings_ctc_example =
    raw_earnings_ctc staff (rw staff_balances (omega arith)) (rw staff-remainder (omega arith))

staff_lines : All (λ p. pos 0 ≤ℤ p.amount) (raw_earnings staff).lines
unfolding program
staff_lines = (omega arith, (omega arith, (omega arith, tt)))

earned_bounds_example :
    let gross = (earned staff (pos 250) (pos 2600)).gross in
    let raw = total (raw_earnings staff).lines in
    (pos 0 ≤ℤ gross) × (gross ≤ℤ raw) × ((earned staff (pos 0) (pos 2600)).gross ≡ raw)
earned_bounds_example =
    earned_bounds staff (pos 250) (pos 2600) (omega arith) (omega arith) staff_lines
