-- ===== src/Payslip/Earnings.antt =====
-- The first half of `compute_payslip` (app/services/payroll/payroll_service.py): the earning lines
-- are resolved, the balance lines take what is left of the CTC, and all are pro-rated.
use croar_backend_new.Prelude.{
  ℕ, suc, ◌*◌, none, some, List, [], ◌∷◌, ◌++◌, map, length, if◌then◌else◌,
}
use croar_backend_new.Prelude.Int.{ℤ, pos, negsuc, pos_part, sub_ℕ, ◌+ℤ◌, ◌-ℤ◌, ltb_ℤ}
use croar_backend_new.Money.{Money, Decimal, decimal, cents, multiply, divide_by, quantize, context}
use croar_backend_new.Text.{Text, codes, lookup_text}
use croar_backend_new.Line.{Pay, pay}
use croar_backend_new.Payslip.Structure.{
  LineType, fixed, percent, balance, MoneyLine, PayFrequency, monthly, weekly, hourly,
  SalaryStructure,
}

-- The resolved amounts by code, the newest first.
abbrev pub Table : Type 0
Table = List (Text × Money)

abbrev pub ctc_code : Text
ctc_code = codes "CTC"

-- `by_code.get(code, Decimal("0"))`
abbrev pub amount_of : Text → Table → Money
amount_of c table = elim (lookup_text c table) [ none ↦ pos 0 | some a ↦ a ]

-- The base of a percentage.
abbrev pub base_of : Text → Table → Money → Money
base_of [] table base = base
base_of (c ∷ t) table base = amount_of (c ∷ t) table

-- `_resolve_amount`
unfoldable pub resolve_amount : LineType → Table → Money → Decimal
resolve_amount (fixed amount) table base = amount
resolve_amount (percent pct of) table base =
    multiply (divide_by pct 100) (cents (base_of of table base))
resolve_amount balance table base = decimal 0 1

-- `divisor`: 52 for weekly pay, 12 for any other.
abbrev pub divisor : PayFrequency → ℕ
divisor weekly = 52
divisor monthly = 12
divisor hourly = 12

unfoldable pub period_ctc : SalaryStructure → Money
period_ctc s = quantize (divide_by (cents s.ctc) (divisor s.pay_frequency))

-- The variables of the first pass.
pub record Resolved : Type 0 where
  pub lines : List Pay
  pub gross : Money
  pub balances : List Text

-- The body of the loop over the components: a balance line is put aside; any other is entered in
-- the table, added to the gross and listed.
unfoldable pub next_table : LineType → Text → Money → Table → Table
next_table balance c amount table = table
next_table (fixed _) c amount table = (c, amount) ∷ table
next_table (percent _ _) c amount table = (c, amount) ∷ table

unfoldable pub next_gross : LineType → Money → Money → Money
next_gross balance amount gross = gross
next_gross (fixed _) amount gross = gross +ℤ amount
next_gross (percent _ _) amount gross = gross +ℤ amount

unfoldable pub put_line : LineType → Text → Money → Resolved → Resolved
put_line balance c amount r = record r { balances = c ∷ r.balances }
put_line (fixed _) c amount r = record r { lines = pay c amount ∷ r.lines }
put_line (percent _ _) c amount r = record r { lines = pay c amount ∷ r.lines }

unfoldable pub resolve_lines : List MoneyLine → Table → Money → Resolved
resolve_lines [] table gross = record { lines = []; gross = gross; balances = [] }
resolve_lines (l ∷ ls) table gross =
    let amount = quantize (resolve_amount l.type table gross) in
    put_line l.type l.code amount
      (resolve_lines ls (next_table l.type l.code amount table) (next_gross l.type amount gross))

-- What one of the n balance lines gets.
unfoldable pub balance_share : Money → ℕ → Money
balance_share remainder n =
    if ltb_ℤ (pos 0) remainder then quantize (divide_by (cents remainder) n) else pos 0

-- `raw_lines` and `raw_gross` after both passes.
pub record Raw : Type 0 where
  pub lines : List Pay
  pub gross : Money

unfoldable pub add_shares : Money → List Text → Money → Money
add_shares share [] gross = gross
add_shares share (c ∷ cs) gross = add_shares share cs (gross +ℤ share)

unfoldable pub raw_earnings : SalaryStructure → Raw
raw_earnings s =
    let ctc = period_ctc s in
    let r = resolve_lines s.components ((ctc_code, ctc) ∷ []) (pos 0) in
    let share = balance_share (ctc -ℤ r.gross) (length r.balances) in
    record {
      lines = r.lines ++ map (λ c. pay c share) r.balances;
      gross = add_shares share r.balances r.gross;
    }

-- A product at the 28 digits of the context.
unfoldable pub times : Money → Decimal → Decimal
times (pos n) m = context (n * pos_part m.num) (100 * m.den)
times (negsuc n) m =
    let size = context (suc n * pos_part m.num) (100 * m.den) in
    record size { num = sub_ℕ 0 (pos_part size.num) }

-- The share of the period that is paid; `working` and `lop` are hundredths of days, with
-- 0 <= lop <= working.
unfoldable pub multiplier : ℤ → ℤ → Decimal
multiplier working lop =
    if ltb_ℤ (pos 0) lop
    then context (pos_part (working -ℤ lop)) (pos_part working)
    else decimal 1 1

unfoldable pub prorate : Decimal → Pay → Pay
prorate m p = pay p.code (quantize (times p.amount m))

-- The prorated lines, the table of them, newest first, and the gross.
pub record Prorated : Type 0 where
  pub earnings : List Pay
  pub by_code : Table
  pub gross : Money

unfoldable pub prorate_lines : Decimal → List Pay → Table → Money → Prorated
prorate_lines m [] table gross = record { earnings = []; by_code = table; gross = gross }
prorate_lines m (p ∷ ps) table gross =
    let e = prorate m p in
    let rest = prorate_lines m ps ((e.code, e.amount) ∷ table) (gross +ℤ e.amount) in
    record rest { earnings = e ∷ rest.earnings }
