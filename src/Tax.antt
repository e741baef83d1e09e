-- ===== src/Tax.antt =====
-- app/services/payroll/tax_engine.py: the income-tax (TDS) estimate. Incomes are in paise. A tax on
-- slabs is a sum of paise times whole percents, so it is a whole number of 1 / 10_000 of a rupee;
-- the cess of four percent makes it a whole number of 1 / 1_000_000.
pub mod Slabs
pub mod Rebate
mod Examples
use croar_backend_new.Prelude.{
  ℕ, ◌+◌, ◌*◌, Bool, true, false, Option, none, some, List, [], ◌∷◌, if◌then◌else◌,
}
use croar_backend_new.Prelude.Int.{ℤ, pos, ◌+ℤ◌, ◌-ℤ◌, ltb_ℤ, leb_ℤ, min_ℤ, max_ℤ}
use croar_backend_new.Money.{Money, ◌*ℤ◌, half_up}

-- A band: its upper bound, inclusive, with none for "and above", and its rate in percent.
abbrev pub Band : Type 0
Band = Option Money × ℕ

abbrev rupees : ℕ → Money
rupees n = pos (n * 100)

abbrev pub new_regime_slabs : List Band
new_regime_slabs =
    (some (rupees 400_000), 0)
    ∷ (some (rupees 800_000), 5)
    ∷ (some (rupees 1_200_000), 10)
    ∷ (some (rupees 1_600_000), 15)
    ∷ (some (rupees 2_000_000), 20)
    ∷ (some (rupees 2_400_000), 25)
    ∷ (none, 30)
    ∷ []

abbrev pub old_regime_slabs : List Band
old_regime_slabs =
    (some (rupees 250_000), 0)
    ∷ (some (rupees 500_000), 5)
    ∷ (some (rupees 1_000_000), 20)
    ∷ (none, 30)
    ∷ []

-- Amounts in 1 / 10_000 of a rupee.
abbrev pub Tax : Type 0
Tax = ℤ

-- The loop of `_slab_tax`, over its variables `tax` and `lower`.
unfoldable pub slab_loop : Money → List Band → Money → Tax → Tax
slab_loop taxable [] lower tax = tax
slab_loop taxable ((none, rate) ∷ slabs) lower tax =
    if ltb_ℤ lower taxable then tax +ℤ ◌*ℤ◌ (taxable -ℤ lower) (pos rate) else tax
slab_loop taxable ((some upper, rate) ∷ slabs) lower tax =
    let next = slab_loop taxable slabs upper (tax +ℤ ◌*ℤ◌ (upper -ℤ lower) (pos rate)) in
    if ltb_ℤ upper taxable
    then next
    else if ltb_ℤ lower taxable
    then tax +ℤ ◌*ℤ◌ (taxable -ℤ lower) (pos rate)
    else tax

unfoldable pub slab_tax : Money → List Band → Tax
slab_tax taxable slabs = slab_loop taxable slabs (pos 0) (pos 0)

pub data Regime : Type 0 where
  old new : Regime

-- The declared amounts that `_old_regime_deductions` reads; a missing one is zero.
pub record Declarations : Type 0 where
  pub declared_80c : Money
  pub declared_80d : Money
  pub declared_home_loan_interest : Money
  pub declared_other : Money

abbrev cap_80c : Money
cap_80c = rupees 150_000

abbrev cap_80d : Money
cap_80d = rupees 100_000

abbrev cap_home_loan : Money
cap_home_loan = rupees 200_000

unfoldable pub old_regime_deductions : Declarations → Money
old_regime_deductions d =
    min_ℤ d.declared_80c cap_80c
    +ℤ min_ℤ d.declared_80d cap_80d
    +ℤ min_ℤ d.declared_home_loan_interest cap_home_loan
    +ℤ d.declared_other

-- The keyword arguments of `compute_tds`; `rules` holds those that a company can override.
pub record TdsRules : Type 0 where
  pub new_rebate_limit : Money
  pub old_rebate_limit : Money
  pub new_std_deduction : Money
  pub old_std_deduction : Money

abbrev pub tds_defaults : TdsRules
tds_defaults = record {
  new_rebate_limit = rupees 1_200_000;
  old_rebate_limit = rupees 500_000;
  new_std_deduction = rupees 75_000;
  old_std_deduction = rupees 50_000;
}

pub record TdsInput : Type 0 where
  pub annual_gross : Money
  pub regime : Regime
  pub declarations : Declarations
  pub prev_employer_income : Money
  pub prev_employer_tds : Money

-- The figures as they are returned, at two places.
pub record Tds : Type 0 where
  pub regime : Regime
  pub annual_gross : Money
  pub total_income : Money
  pub standard_deduction : Money
  pub declared_deductions : Money
  pub taxable_income : Money
  pub tax_before_rebate : Money
  pub rebate_87a : Money
  pub cess : Money
  pub annual_tax : Money
  pub prev_employer_tds : Money
  pub monthly_tds : Money

abbrev pub std_deduction : TdsRules → Regime → Money
std_deduction r old = r.old_std_deduction
std_deduction r new = r.new_std_deduction

abbrev pub declared_deductions : TdsInput → Regime → Money
declared_deductions i old = old_regime_deductions i.declarations
declared_deductions i new = pos 0

abbrev pub slabs_of : Regime → List Band
slabs_of old = old_regime_slabs
slabs_of new = new_regime_slabs

abbrev pub rebate_limit : TdsRules → Regime → Money
rebate_limit r old = r.old_rebate_limit
rebate_limit r new = r.new_rebate_limit

-- `if x < 0: x = 0`
abbrev pub at_least_zero : ℤ → ℤ
at_least_zero a = if ltb_ℤ a (pos 0) then pos 0 else a

unfoldable pub taxable_income : TdsRules → TdsInput → Money
taxable_income r i = at_least_zero (
    i.annual_gross
    +ℤ i.prev_employer_income
    -ℤ std_deduction r i.regime
    -ℤ declared_deductions i i.regime)

-- The rebate of section 87A, which takes away the whole tax up to the limit.
unfoldable pub rebate : TdsRules → Regime → Money → Tax → Tax
rebate r regime taxable before = if leb_ℤ taxable (rebate_limit r regime) then before else pos 0

-- Tax after rebate and the cess on it, in 1 / 1_000_000 of a rupee.
unfoldable pub annual_tax : Tax → ℤ
annual_tax after = ◌*ℤ◌ after (pos 100) +ℤ ◌*ℤ◌ after (pos 4)

-- What is left to deduct, over twelve months; `prev` is in paise.
unfoldable pub monthly : ℤ → Money → Money
monthly tax prev = half_up (at_least_zero (tax -ℤ ◌*ℤ◌ prev (pos 10_000))) 120_000

unfoldable pub compute_tds : TdsRules → TdsInput → Tds
compute_tds r i =
    let taxable = taxable_income r i in
    let before = slab_tax taxable (slabs_of i.regime) in
    let back = rebate r i.regime taxable before in
    let after = before -ℤ back in
    let tax = annual_tax after in
    record {
      regime = i.regime;
      annual_gross = i.annual_gross;
      total_income = i.annual_gross +ℤ i.prev_employer_income;
      standard_deduction = std_deduction r i.regime;
      declared_deductions = declared_deductions i i.regime;
      taxable_income = taxable;
      tax_before_rebate = half_up before 100;
      rebate_87a = half_up back 100;
      cess = half_up (◌*ℤ◌ after (pos 4)) 10_000;
      annual_tax = half_up tax 10_000;
      prev_employer_tds = i.prev_employer_tds;
      monthly_tds = monthly tax i.prev_employer_tds;
    }
