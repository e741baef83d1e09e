-- ===== src/Payslip/Proration.antt =====
-- Loss of pay: the prorated lines against the raw lines
-- (app/services/payroll/payroll_service.py).
use native.Mathlib.Nat.{pow-suc, one-le-pow, mul-le-mul_left, mul-le-mul_right}
use croar_backend_new.Prelude.{
  ℕ, zero, suc, ◌+◌, ◌*◌, ◌^◌, ◌≤◌, ◌<◌, ◌≡◌, List, [], ◌∷◌, Bool-cases, inl, inr, ltb, All, arith,
}
use croar_backend_new.Prelude.Int.{
  ℤ, pos, negsuc, pos_part, ◌+ℤ◌, ◌-ℤ◌, ◌≤ℤ◌, ltb_ℤ, int_laws, parts_disjoint,
}
use croar_backend_new.Money.{
  Money, Decimal, decimal, quantize, half_up, half_up_ℕ, half_even, places, context, ◌*ℤ◌,
}
use croar_backend_new.Money.Rounding.{half_up_ℕ-le, le-half_up_ℕ, half_even-le, le-half_even}
use croar_backend_new.Line.{Pay, total}
use croar_backend_new.Payslip.Structure.{SalaryStructure}
use croar_backend_new.Payslip.Earnings.{
  Table, times, multiplier, prorate, prorate_lines, raw_earnings,
}
use croar_backend_new.Payslip.{earned}

-- At least the places that the search starts from.
places_ge : (fuel k n d : ℕ) → (i : ℕ) × (places fuel k n d ≡ k + i)
unfolding places
places_ge zero k n d = (0, omega arith)
places_ge (suc fuel) k n d = elim (Bool-cases (ltb (n * 10 ^ k) (d * 10 ^ 27))) [
  | inl more ↦ let (i, e) = places_ge fuel (suc k) n d in (suc i, rw more (omega arith))
  | inr done ↦ (0, rw done (omega arith))
]

hundred_pow : (i : ℕ) → 10 ^ (2 + i) ≡ 10 ^ i * 100
hundred_pow i =
    let e : 2 + i ≡ suc (suc i) = omega arith in
    rw (e, pow-suc 10 (suc i), pow-suc 10 i) (omega arith)

-- A context value has at least two places.
context_lem :
    (n d : ℕ)
    → (i : ℕ) × (0 < 10 ^ i)
      × (context n d ≡ decimal (half_even (n * (10 ^ i * 100)) d) (10 ^ i * 100))
unfolding context
context_lem n d =
    let (i, e) = places_ge 60 2 n d in (i, one-le-pow i 10 (omega arith), rw (e, hundred_pow i))

scaled : (a b c : ℕ) → a ≤ b → a * (c * 100) ≤ b * c * 100
scaled a b c h = omega (arith, mul-le-mul_right (c * 100) h)

-- A value of at most n hundredths, at the digits of the context, is at most n hundredths.
quantize-context_le :
    (x d n : ℕ) → 0 < d → 100 * x ≤ n * d → (m : ℕ) × (quantize (context x d) ≡ pos m) × (m ≤ n)
unfolding quantize half_up ◌*ℤ◌
quantize-context_le x d n p h =
    let (i, pi, e) = context_lem x d in
    let k = 10 ^ i in
    let r = half_even (x * (k * 100)) d in
    let le : r ≤ n * k =
      half_even-le (x * (k * 100)) d (n * k) p (omega (arith, mul-le-mul_left k h)) in
    (
      half_up_ℕ (r * 100) (k * 100),
      rw e,
      half_up_ℕ-le (r * 100) (k * 100) n (omega arith) (omega (arith, le)),
    )

quantize_context_ge : (x d n : ℕ) → 0 < d → n * d ≤ 100 * x → pos n ≤ℤ quantize (context x d)
unfolding quantize half_up ◌*ℤ◌
quantize_context_ge x d n p h =
    let (i, pi, e) = context_lem x d in
    let k = 10 ^ i in
    let r = half_even (x * (k * 100)) d in
    let ge : n * k ≤ r =
      le-half_even (x * (k * 100)) d (n * k) p (omega (arith, mul-le-mul_left k h)) in
    let top = le-half_up_ℕ (r * 100) (k * 100) n (omega arith) (omega (arith, ge)) in
    rw e (omega arith)

-- The multiplier is a fraction of at most one.
multiplier-le_one :
    (working lop : ℤ)
    → ¬ (working ≤ℤ pos 0)
    → lop ≤ℤ working
    → (c d : ℕ) × (multiplier working lop ≡ decimal c d) × (c ≤ d) × (0 < d)
unfolding multiplier
multiplier-le_one working lop w l = elim (Bool-cases (ltb_ℤ (pos 0) lop)) [
  | inl some_lop ↦
      let x = pos_part (working -ℤ lop) in
      let d = pos_part working in
      let (i, pi, e) = context_lem x d in
      let k = 10 ^ i * 100 in
      let lost : ¬ (lop ≤ℤ pos 0) = ground arith in
      let paid : x ≤ d =
        omega (int_laws, parts_disjoint (working -ℤ lop), parts_disjoint working) in
      (
        half_even (x * k) d,
        k,
        rw some_lop e,
        half_even-le (x * k) d k (omega (arith, parts_disjoint working))
            (omega (arith, mul-le-mul_right k paid)),
        omega arith,
      )
  | inr no_lop ↦ (1, 1, rw no_lop, omega arith, omega arith)
]

times-le :
    (m : Decimal) (a : Money) (c d : ℕ)
    → m ≡ decimal c d
    → c ≤ d
    → 0 < d
    → pos 0 ≤ℤ a
    → (pos 0 ≤ℤ quantize (times a m)) × (quantize (times a m) ≤ℤ a)
unfolding times
times-le m (negsuc n) c d e le q h = absurd (omega arith)
times-le m (pos n) c d e le q h =
    let (k, f, low) =
      quantize-context_le (n * c) (100 * d) n (omega arith) (omega (arith, mul-le-mul_left n le)) in
    rw (e, f) (omega arith, omega arith)

-- A prorated amount that is not negative stays so, and is at most the raw amount.
prorate-le :
    (working lop : ℤ) (p : Pay)
    → ¬ (working ≤ℤ pos 0)
    → lop ≤ℤ working
    → pos 0 ≤ℤ p.amount
    → let e = prorate (multiplier working lop) p in (pos 0 ≤ℤ e.amount) × (e.amount ≤ℤ p.amount)
unfolding prorate
prorate-le working lop p w l h =
    let (c, d, e, le, q) = multiplier-le_one working lop w l in
    times-le (multiplier working lop) p.amount c d e le q h

-- At the multiplier one nothing is lost.
times_one : (a : Money) → pos 0 ≤ℤ a → a ≤ℤ quantize (times a (decimal 1 1))
unfolding times
times_one (pos n) h = quantize_context_ge (n * 1) 100 n (omega arith) (omega arith)
times_one (negsuc n) h = absurd (omega arith)

prorate_lines_bounds :
    (m : Decimal) (ps : List Pay) (table : Table) (g : Money)
    → ((p : Pay)
        → pos 0 ≤ℤ p.amount
        → (pos 0 ≤ℤ (prorate m p).amount) × ((prorate m p).amount ≤ℤ p.amount))
    → All (λ p. pos 0 ≤ℤ p.amount) ps
    → let r = prorate_lines m ps table g in (g ≤ℤ r.gross) × (r.gross ≤ℤ g +ℤ total ps)
unfolding prorate_lines
prorate_lines_bounds m [] table g each h = omega int_laws
prorate_lines_bounds m (p ∷ ps) table g each h =
    let e = prorate m p in
    let here = each p h.0 in
    let later = prorate_lines_bounds m ps ((e.code, e.amount) ∷ table) (g +ℤ e.amount) each h.1 in
    omega int_laws

prorate_lines_ge :
    (m : Decimal) (ps : List Pay) (table : Table) (g : Money)
    → ((p : Pay) → pos 0 ≤ℤ p.amount → p.amount ≤ℤ (prorate m p).amount)
    → All (λ p. pos 0 ≤ℤ p.amount) ps
    → g +ℤ total ps ≤ℤ (prorate_lines m ps table g).gross
unfolding prorate_lines
prorate_lines_ge m [] table g each h = omega int_laws
prorate_lines_ge m (p ∷ ps) table g each h =
    let e = prorate m p in
    let here = each p h.0 in
    let later = prorate_lines_ge m ps ((e.code, e.amount) ∷ table) (g +ℤ e.amount) each h.1 in
    omega int_laws

-- Where there are working days, the loss of pay is at most all of them and no raw earning is negative,
-- the prorated gross is not negative and at most the sum of the raw earnings; without loss of pay it
-- is that sum.
pub earned_bounds :
    (st : SalaryStructure) (lop working : ℤ)
    → ¬ (working ≤ℤ pos 0)
    → lop ≤ℤ working
    → All (λ p. pos 0 ≤ℤ p.amount) (raw_earnings st).lines
    → let gross = (earned st lop working).gross in
      let raw = total (raw_earnings st).lines in
      (pos 0 ≤ℤ gross) × (gross ≤ℤ raw) × ((earned st (pos 0) working).gross ≡ raw)
unfolding earned prorate multiplier
earned_bounds st lop working w l h =
    let lines = (raw_earnings st).lines in
    let (low, high) =
      prorate_lines_bounds (multiplier working lop) lines [] (pos 0)
        (λ p q. prorate-le working lop p w l q) h in
    let some_days : pos 0 ≤ℤ working = omega arith in
    let (low₀, high₀) =
      prorate_lines_bounds (multiplier working (pos 0)) lines [] (pos 0)
        (λ p q. prorate-le working (pos 0) p w some_days q) h in
    let ge₀ = prorate_lines_ge (multiplier working (pos 0)) lines [] (pos 0) (λ p q. whole p q) h in
    (low, omega int_laws, omega int_laws)
  where
    whole :
        (p : Pay) → pos 0 ≤ℤ p.amount → p.amount ≤ℤ (prorate (multiplier working (pos 0)) p).amount
    whole p q = times_one p.amount q
