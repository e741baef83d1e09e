-- ===== src/Statutory.antt =====
-- app/services/payroll/statutory.py: provident fund (EPF/EPS), state insurance (ESI) and
-- professional tax (PT). Amounts are in paise; rates are exact decimals.
pub mod Shares
pub mod Slabs
mod Examples
use croar_backend_new.Prelude.{
  ℕ, zero, ◌+◌, ◌*◌, Bool, true, false, Option, none, some, List, [], ◌∷◌, if◌then◌else◌,
}
use croar_backend_new.Prelude.Int.{ℤ, pos, ◌-ℤ◌, ltb_ℤ, leb_ℤ, min_ℤ}
use croar_backend_new.Money.{Money, Decimal, decimal, cents, multiply, ◌*ℤ◌, half_up, ceiling}
use croar_backend_new.Text.{Text, strip, upper, text_eq, codes, lookup_text}

-- Whole rupees as paise.
abbrev pub rupees : ℕ → Money
rupees n = pos (n * 100)

abbrev pub pf_wage_ceiling : Money
pf_wage_ceiling = rupees 15000

abbrev pub pf_employee_rate : Decimal
pf_employee_rate = decimal 12 100

abbrev pub pf_employer_rate : Decimal
pf_employer_rate = decimal 12 100

abbrev pub eps_rate : Decimal
eps_rate = decimal 833 10000

abbrev pub eps_wage_ceiling : Money
eps_wage_ceiling = rupees 15000

abbrev pub esi_wage_limit : Money
esi_wage_limit = rupees 21000

abbrev pub esi_employee_rate : Decimal
esi_employee_rate = decimal 75 10000

abbrev pub esi_employer_rate : Decimal
esi_employer_rate = decimal 325 10000

-- `_round`: to the nearest rupee, given back at two places.
unfoldable pub round_rupee : Decimal → Money
round_rupee a = ◌*ℤ◌ (half_up a.num a.den) (pos 100)

-- `_round_up`: up to the next rupee.
unfoldable pub round_up : Decimal → Money
round_up a = ◌*ℤ◌ (ceiling a.num a.den) (pos 100)

pub record Pf : Type 0 where
  pub employee : Money
  pub employer_total : Money
  pub employer_eps : Money
  pub employer_epf : Money
  pub wage_considered : Money

-- The keyword arguments of `compute_pf` that have defaults.
pub record PfRules : Type 0 where
  pub cap_at_ceiling : Bool
  pub employee_rate : Decimal
  pub employer_rate : Decimal
  pub wage_ceiling : Money
  pub eps_rate : Decimal
  pub eps_wage_ceiling : Money

abbrev pub pf_defaults : PfRules
pf_defaults = record {
  cap_at_ceiling = true;
  employee_rate = pf_employee_rate;
  employer_rate = pf_employer_rate;
  wage_ceiling = pf_wage_ceiling;
  eps_rate = eps_rate;
  eps_wage_ceiling = eps_wage_ceiling;
}

unfoldable pub contributory : PfRules → Money → Money
contributory r pf_wage = if r.cap_at_ceiling then min_ℤ pf_wage r.wage_ceiling else pf_wage

unfoldable pub compute_pf : PfRules → Money → Pf
compute_pf r pf_wage =
    let wage = contributory r pf_wage in
    let eps_wage = min_ℤ pf_wage r.eps_wage_ceiling in
    let total = round_rupee (multiply (cents wage) r.employer_rate) in
    let eps = round_rupee (multiply (cents eps_wage) r.eps_rate) in
    record {
      employee = round_rupee (multiply (cents wage) r.employee_rate);
      employer_total = total;
      employer_eps = eps;
      employer_epf = round_rupee (cents (total -ℤ eps));
      wage_considered = round_rupee (cents wage);
    }

pub record Esi : Type 0 where
  pub covered : Bool
  pub employee : Money
  pub employer : Money

unfoldable pub compute_esi : Money → Decimal → Decimal → Money → Esi
compute_esi wage_limit employee_rate employer_rate gross =
    if ltb_ℤ wage_limit gross
    then record { covered = false; employee = pos 0; employer = pos 0 }
    else record {
      covered = true;
      employee = round_up (multiply (cents gross) employee_rate);
      employer = round_up (multiply (cents gross) employer_rate);
    }

-- A band of a schedule: its upper bound, inclusive, with none for "and above", and its amount.
abbrev pub Slab : Type 0
Slab = Option Money × Money

abbrev slab : ℕ → ℕ → Slab
slab upper amount = (some (rupees upper), rupees amount)

abbrev above : ℕ → Slab
above amount = (none, rupees amount)

abbrev pub pt_slabs : List (Text × List Slab)
pt_slabs =
    (codes "KA", slab 24999 0 ∷ above 200 ∷ [])
    ∷ (codes "MH", slab 7500 0 ∷ slab 10000 175 ∷ above 200 ∷ [])
    ∷ (codes "WB", slab 10000 0 ∷ slab 15000 110 ∷ slab 25000 130 ∷ slab 40000 150 ∷ above 200 ∷ [])
    ∷ (codes "TG", slab 15000 0 ∷ slab 20000 150 ∷ above 200 ∷ [])
    ∷ (codes "AP", slab 15000 0 ∷ slab 20000 150 ∷ above 200 ∷ [])
    ∷ []

pub data Note : Type 0 where
  no_slab_configured : Note

pub record Pt : Type 0 where
  pub amount : Money
  pub state : Option Text
  pub note : Option Note

-- `gross <= upper`, where no upper bound admits every gross.
abbrev pub within : Money → Option Money → Bool
within gross none = true
within gross (some upper) = leb_ℤ gross upper

-- The loop of `compute_pt`: the amount of the first band that reaches up to the gross.
unfoldable pub pt_amount : List Slab → Money → Money
pt_amount [] gross = pos 0
pt_amount ((upper, amount) ∷ slabs) gross =
    let rest = pt_amount slabs gross in
    if within gross upper then round_rupee (cents amount) else rest

-- `code or None`
abbrev pub text_or_none : Text → Option Text
text_or_none [] = none
text_or_none (c ∷ t) = some (c ∷ t)

pt_of_slabs : Text → Option (List Slab) → Money → Pt
pt_of_slabs code none gross = record {
  amount = pos 0;
  state = text_or_none code;
  note = some no_slab_configured;
}
pt_of_slabs code (some slabs) gross = record {
  amount = pt_amount slabs gross;
  state = some code;
  note = none;
}

-- A missing state is the empty text.
abbrev pub state_code : Option Text → Text
state_code none = []
state_code (some t) = upper (strip t)

unfoldable pub compute_pt : Option Text → Money → Pt
unfolding pt_of_slabs
compute_pt state gross =
    let code = state_code state in pt_of_slabs code (lookup_text code pt_slabs) gross
