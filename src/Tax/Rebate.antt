-- ===== src/Tax/Rebate.antt =====
-- The estimate as a whole: the rebate, the signs of the figures and a change of the gross
-- (app/services/payroll/tax_engine.py).
use croar_backend_new.Prelude.{
  ℕ, ◌+◌, ◌-◌, ◌≤◌, ◌≡◌, refl, ap, false, Bool-cases, inl, inr, ◌⊎◌, arith, if◌then◌else◌,
}
use croar_backend_new.Prelude.Int.{
  ℤ, pos, negsuc, pos_part, neg_part, ◌+ℤ◌, ◌-ℤ◌, ◌≤ℤ◌, leb_ℤ, int_laws,
}
use croar_backend_new.Money.{Money, ◌*ℤ◌, half_up, half_up_ℕ}
use croar_backend_new.Money.Rounding.{half_up_mono, times_mono}
use croar_backend_new.Tax.{
  Tax, Regime, old, new, TdsRules, TdsInput, slabs_of, slab_tax, taxable_income, at_least_zero,
  rebate, rebate_limit, annual_tax, monthly, compute_tds, std_deduction, declared_deductions,
}
use croar_backend_new.Tax.Slabs.{slab_tax_slope, slab_tax-marginal, IsAscending, IsCapped}

slabs_of-IsAscending : (g : Regime) → IsAscending 0 (slabs_of g)
slabs_of-IsAscending old = ground arith
slabs_of-IsAscending new = ground arith

slabs_of-IsCapped : (g : Regime) → IsCapped 30 (slabs_of g)
slabs_of-IsCapped old = omega arith
slabs_of-IsCapped new = omega arith

at_least_zero_nonneg : (a : ℤ) → (n : ℕ) × (at_least_zero a ≡ pos n)
at_least_zero_nonneg (pos n) = (n, ground arith)
at_least_zero_nonneg (negsuc n) = (0, ground arith)

at_least_zero_mono : (a b : ℤ) → a ≤ℤ b → at_least_zero a ≤ℤ at_least_zero b
at_least_zero_mono a b h = ground arith

taxable_income_nonneg : (r : TdsRules) (i : TdsInput) → (n : ℕ) × (taxable_income r i ≡ pos n)
unfolding taxable_income
taxable_income_nonneg r i = at_least_zero_nonneg (
    i.annual_gross
    +ℤ i.prev_employer_income
    -ℤ std_deduction r i.regime
    -ℤ declared_deductions i i.regime)

taxable_income_mono :
    (r : TdsRules) (i : TdsInput) (gross : Money)
    → i.annual_gross ≤ℤ gross
    → taxable_income r i ≤ℤ taxable_income r (record i { annual_gross = gross })
unfolding taxable_income
taxable_income_mono r i gross h =
    let less = std_deduction r i.regime in
    let declared = declared_deductions i i.regime in
    at_least_zero_mono (i.annual_gross +ℤ i.prev_employer_income -ℤ less -ℤ declared)
      (gross +ℤ i.prev_employer_income -ℤ less -ℤ declared) (omega int_laws)

-- Tax after the rebate.
abbrev after_rebate : TdsRules → Regime → Money → Tax
after_rebate r g taxable =
    let before = slab_tax taxable (slabs_of g) in before -ℤ rebate r g taxable before

slab_tax_pos_mono :
    (g : Regime) (m n : ℕ) → m ≤ n → slab_tax (pos m) (slabs_of g) ≤ℤ slab_tax (pos n) (slabs_of g)
slab_tax_pos_mono g m n h =
    let e : m + (n - m) ≡ n = omega arith in
    rw e at
      (slab_tax_slope m (n - m) 30 (slabs_of g) (slabs_of-IsAscending g) (slabs_of-IsCapped g)).0

slab_tax_nonneg : (g : Regime) (m : ℕ) → pos 0 ≤ℤ slab_tax (pos m) (slabs_of g)
slab_tax_nonneg g m = rw (slab_tax-marginal m (slabs_of g) (slabs_of-IsAscending g)) (omega arith)

-- Taking the whole tax away up to a limit keeps the order.
cut_mono :
    (m n lim : ℤ) (x y : Tax)
    → m ≤ℤ n
    → pos 0 ≤ℤ x
    → x ≤ℤ y
    → x -ℤ (if leb_ℤ m lim then x else pos 0) ≤ℤ y -ℤ (if leb_ℤ n lim then y else pos 0)
cut_mono m n lim x y h p k = elim (Bool-cases (leb_ℤ m lim)) [
  | inl a ↦ elim (Bool-cases (leb_ℤ n lim)) [
    | inl b ↦ rw (a, b) (omega int_laws)
    | inr b ↦ rw (a, b) (omega int_laws)
  ]
  | inr a ↦ let b : leb_ℤ n lim ≡ false = ground arith in rw (a, b) (omega int_laws)
]

after_rebate_mono :
    (r : TdsRules) (g : Regime) (m n : ℕ)
    → m ≤ n
    → after_rebate r g (pos m) ≤ℤ after_rebate r g (pos n)
unfolding rebate
after_rebate_mono r g m n h =
    cut_mono (pos m) (pos n) (rebate_limit r g) (slab_tax (pos m) (slabs_of g))
      (slab_tax (pos n) (slabs_of g)) (omega arith) (slab_tax_nonneg g m)
      (slab_tax_pos_mono g m n h)

monthly_mono : (a b : ℤ) (prev : Money) → a ≤ℤ b → monthly a prev ≤ℤ monthly b prev
unfolding monthly
monthly_mono a b prev h =
    let p = ◌*ℤ◌ prev (pos 10_000) in
    half_up_mono (at_least_zero (a -ℤ p)) (at_least_zero (b -ℤ p)) 120_000 (omega arith)
      (at_least_zero_mono (a -ℤ p) (b -ℤ p) (omega int_laws))

annual_tax_mono : (a b : Tax) → a ≤ℤ b → annual_tax a ≤ℤ annual_tax b
unfolding annual_tax
annual_tax_mono a b h = omega (int_laws, times_mono a b 100 h, times_mono a b 4 h)

monthly_of_mono :
    (r : TdsRules) (g : Regime) (prev x y : Money) (m n : ℕ)
    → x ≡ pos m
    → y ≡ pos n
    → x ≤ℤ y
    → monthly (annual_tax (after_rebate r g x)) prev
      ≤ℤ monthly (annual_tax (after_rebate r g y)) prev
monthly_of_mono r g prev x y m n e f h =
    let le : m ≤ n = omega (arith, ap pos_part e, ap pos_part f, ap neg_part e, ap neg_part f) in
    rw (e, f)
      (monthly_mono (annual_tax (after_rebate r g (pos m))) (annual_tax (after_rebate r g (pos n)))
        prev
        (annual_tax_mono (after_rebate r g (pos m)) (after_rebate r g (pos n))
          (after_rebate_mono r g m n le)))

-- With all else equal, a higher gross from this employer never lowers the tax to withhold.
pub compute_tds_mono :
    (r : TdsRules) (i : TdsInput) (gross : Money)
    → i.annual_gross ≤ℤ gross
    → (compute_tds r i).monthly_tds
      ≤ℤ (compute_tds r (record i { annual_gross = gross })).monthly_tds
unfolding compute_tds
compute_tds_mono r i gross h =
    let (m, em) = taxable_income_nonneg r i in
    let (n, en) = taxable_income_nonneg r (record i { annual_gross = gross }) in
    monthly_of_mono r i.regime i.prev_employer_tds (taxable_income r i)
      (taxable_income r (record i { annual_gross = gross })) m n em en
      (taxable_income_mono r i gross h)

hundred_and_four : (a : Tax) → annual_tax a ≡ ◌*ℤ◌ a (pos 104)
unfolding annual_tax ◌*ℤ◌ ◌+ℤ◌
hundred_and_four a = ground arith

sub_self : (a : ℤ) → a -ℤ a ≡ pos 0
sub_self a = omega int_laws

sub_zero : (a : ℤ) → a -ℤ pos 0 ≡ a
sub_zero a = omega int_laws

monthly_zero : (prev : Money) → pos 0 ≤ℤ prev → monthly (annual_tax (pos 0)) prev ≡ pos 0
unfolding monthly annual_tax half_up half_up_ℕ ◌*ℤ◌ ◌+ℤ◌ ◌-ℤ◌
monthly_zero (pos n) h = ground arith
monthly_zero (negsuc n) h = absurd (omega arith)

nothing_due : half_up (annual_tax (pos 0)) 10_000 ≡ pos 0
unfolding half_up half_up_ℕ annual_tax ◌*ℤ◌ ◌+ℤ◌
nothing_due = refl

no_rebate : half_up (pos 0) 100 ≡ pos 0
unfolding half_up half_up_ℕ
no_rebate = refl

-- Up to the rebate limit the rebate is the whole tax, so that nothing is due; above it there is no
-- rebate, and the year's tax is 104 percent of the tax on the slabs, to the paisa. The tax deducted
-- by an earlier employer is not negative.
pub compute_tds_rebate :
    (r : TdsRules) (i : TdsInput)
    → pos 0 ≤ℤ i.prev_employer_tds
    → let tds = compute_tds r i in
      let limit = rebate_limit r i.regime in
      let before = slab_tax tds.taxable_income (slabs_of i.regime) in
      ((tds.taxable_income ≤ℤ limit)
        × (tds.rebate_87a ≡ tds.tax_before_rebate)
        × (tds.annual_tax ≡ pos 0)
        × (tds.monthly_tds ≡ pos 0))
      ⊎ (¬ (tds.taxable_income ≤ℤ limit)
          × (tds.rebate_87a ≡ pos 0)
          × (tds.annual_tax ≡ half_up (◌*ℤ◌ before (pos 104)) 10_000))
unfolding compute_tds rebate
compute_tds_rebate r i p =
    let limit = rebate_limit r i.regime in
    let before = slab_tax (taxable_income r i) (slabs_of i.regime) in
    elim (Bool-cases (leb_ℤ (taxable_income r i) limit)) [
      | inl e ↦ inl (
        ground arith,
        rw e,
        rw (e, sub_self before) nothing_due,
        rw (e, sub_self before) (monthly_zero i.prev_employer_tds p),
      )
      | inr e ↦ inr (
        ground arith,
        rw e no_rebate,
        rw (e, sub_zero before) (ap (λ t. half_up t 10_000) (hundred_and_four before)),
      )
    ]
