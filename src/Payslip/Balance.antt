-- ===== src/Payslip/Balance.antt =====
-- The balance lines against the CTC (app/services/payroll/payroll_service.py).
use croar_backend_new.Prelude.{
  ℕ, ◌+◌, ◌*◌, ◌≤◌, ◌<◌, ◌≡◌, refl, ap, ◌∙◌, List, [], ◌∷◌, map, length, arith,
}
use croar_backend_new.Prelude.Int.{
  ℤ, pos, negsuc, pos_part, neg_part, ◌+ℤ◌, ◌-ℤ◌, ◌≤ℤ◌, int_laws, +ℤ_assoc, parts_disjoint,
}
use croar_backend_new.Money.{Money, quantize, half_up, half_up_ℕ, ◌*ℤ◌}
use croar_backend_new.Money.Rounding.{half_up_ℕ_nearest}
use croar_backend_new.Text.{Text}
use croar_backend_new.Line.{Pay, pay, total, total-append}
use croar_backend_new.Payslip.Structure.{
  LineType, fixed, percent, balance, MoneyLine, SalaryStructure,
}
use croar_backend_new.Payslip.Earnings.{
  next_gross, next_table, put_line, Table, ctc_code, period_ctc, Resolved, resolve_lines,
  balance_share, add_shares, raw_earnings, resolve_amount,
}

-- What the other lines leave of the period's CTC.
abbrev pub resolved : SalaryStructure → Resolved
resolved s = resolve_lines s.components ((ctc_code, period_ctc s) ∷ []) (pos 0)

abbrev pub remainder : SalaryStructure → Money
remainder s = period_ctc s -ℤ (resolved s).gross

put_line_gross :
    (t : LineType) (c : Text) (a g : Money) (r : Resolved)
    → r.gross ≡ next_gross t a g +ℤ total r.lines
    → (put_line t c a r).gross ≡ g +ℤ total (put_line t c a r).lines
unfolding put_line next_gross
put_line_gross balance c a g r h = h
put_line_gross (fixed _) c a g r h = h ∙ +ℤ_assoc g a (total r.lines)
put_line_gross (percent _ _) c a g r h = h ∙ +ℤ_assoc g a (total r.lines)

resolve_lines_gross :
    (ls : List MoneyLine) (table : Table) (g : Money)
    → let r = resolve_lines ls table g in r.gross ≡ g +ℤ total r.lines
unfolding resolve_lines
resolve_lines_gross [] table g = omega int_laws
resolve_lines_gross (l ∷ ls) table g =
    let a = quantize (resolve_amount l.type table g) in
    put_line_gross l.type l.code a g _
      (resolve_lines_gross ls (next_table l.type l.code a table) (next_gross l.type a g))

add_shares_lem :
    (n : ℕ) (cs : List Text) (g : Money) → add_shares (pos n) cs g ≡ g +ℤ pos (length cs * n)
unfolding add_shares
add_shares_lem n [] g = omega int_laws
add_shares_lem n (c ∷ cs) g = rw (add_shares_lem n cs (g +ℤ pos n)) (omega int_laws)

total_shares : (n : ℕ) (cs : List Text) → total (map (λ c. pay c (pos n)) cs) ≡ pos (length cs * n)
total_shares n [] = ap pos (omega arith)
total_shares n (c ∷ cs) = rw (total_shares n cs) (omega int_laws)

-- n shares of m, each rounded to a whole paisa, are within n / 2 of m.
shares_near :
    (m n : ℕ)
    → 0 < n
    → let k = half_up_ℕ (m * 100) (100 * n) in (2 * (n * k) ≤ 2 * m + n) × (2 * m < 2 * (n * k) + n)
shares_near m n h =
    let (low, high) = half_up_ℕ_nearest (m * 100) (100 * n) (omega arith) in
    (omega arith, omega arith)

share_lem : (m n : ℕ) → 0 < m → balance_share (pos m) n ≡ pos (half_up_ℕ (m * 100) (100 * n))
unfolding balance_share quantize half_up ◌*ℤ◌
share_lem m n h = ground arith

pos_of : (a : ℤ) → ¬ (a ≤ℤ pos 0) → (m : ℕ) × (a ≡ pos m) × (0 < m)
pos_of (pos m) h = (m, refl, ground arith)
pos_of (negsuc m) h = absurd (h (omega arith))

gap_bounds :
    (g ctc : ℤ) (m q n : ℕ)
    → ctc -ℤ g ≡ pos m
    → 2 * q ≤ 2 * m + n
    → 2 * m < 2 * q + n
    → let gap = g +ℤ pos q -ℤ ctc in (2 * pos_part gap ≤ n) × (2 * neg_part gap ≤ n)
gap_bounds g ctc m q n e low high =
    let a = ap pos_part e in
    let b = ap neg_part e in
    let d = parts_disjoint (g +ℤ pos q -ℤ ctc) in (omega int_laws, omega int_laws)

zero_add : (a : ℤ) → pos 0 +ℤ a ≡ a
zero_add a = omega int_laws

-- With n > 0 balance lines and something left of the period's CTC, the raw gross is the sum of the
-- raw lines and differs from the CTC by at most n / 2 paise; so with one balance line it is the CTC.
pub raw_earnings_ctc :
    (s : SalaryStructure)
    → 0 < length (resolved s).balances
    → ¬ (remainder s ≤ℤ pos 0)
    → let raw = raw_earnings s in
      let n = length (resolved s).balances in
      let gap = raw.gross -ℤ period_ctc s in
      (raw.gross ≡ total raw.lines) × ((2 * pos_part gap ≤ n) × (2 * neg_part gap ≤ n))
unfolding raw_earnings
raw_earnings_ctc s h p =
    let r = resolved s in
    let n = length r.balances in
    let (m, e, pm) = pos_of (remainder s) p in
    let k = half_up_ℕ (m * 100) (100 * n) in
    let (low, high) = shares_near m n h in
    let g =
      resolve_lines_gross s.components ((ctc_code, period_ctc s) ∷ []) (pos 0)
      ∙ zero_add (total r.lines) in
    let shares : List Pay = map (λ c. pay c (pos k)) r.balances in
    rw (e, share_lem m n pm, add_shares_lem k r.balances r.gross)
      (
        rw (total-append r.lines shares, total_shares k r.balances) (ap (λ t. t +ℤ pos (n * k)) g),
        gap_bounds r.gross (period_ctc s) m (n * k) n e low high,
      )
