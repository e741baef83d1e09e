-- ===== src/Structures/Examples.antt =====
-- A template for an employee with a structure, one without and one who is not there.
use croar_backend_new.Prelude.{
  ℕ, ◌+◌, ◌≡◌, refl, true, false, none, List, [], ◌∷◌, All, length, map,
}
use croar_backend_new.Prelude.Int.{pos}
use croar_backend_new.Text.{codes}
use croar_backend_new.Http.{Outcome, ok, raise, conflict}
use croar_backend_new.Money.{decimal}
use croar_backend_new.Payslip.Structure.{percent, balance, monthly, hourly}
use croar_backend_new.Structures.{
  StructureRow, SalaryTemplate, Assignment, Applied, insert_structure, create_structure,
  structure_of, apply_one, apply_loop, apply_template, new_structure,
}
use croar_backend_new.Structures.Single.{AreSingle}
use croar_backend_new.Structures.Applying.{IsPaid, IsServed, apply_template-IsServed}

abbrev standard : SalaryTemplate
standard = record {
  id = 3;
  company = 7;
  deleted = false;
  pay_frequency = monthly;
  components =
      record { code = codes "BASIC"; type = percent (decimal 40 1) (codes "CTC") }
      ∷ record { code = codes "OTHER"; type = balance }
      ∷ [];
  default_deductions = [];
  pf_enabled = false;
  pf_cap_at_ceiling = none;
  pf_wage_codes = [];
  esi_enabled = false;
  pt_enabled = false;
  tds_enabled = false;
}

program : Unit {0}
unfolding insert_structure create_structure structure_of apply_one apply_loop apply_template
program = tt

abbrev old : StructureRow
old = new_structure 1 7 5 true (structure_of standard (pos 60_000_000))

abbrev assigned : List Assignment
assigned =
    record { employee = 5; ctc = pos 72_000_000 }
    ∷ record { employee = 6; ctc = pos 48_000_000 }
    ∷ record { employee = 8; ctc = pos 48_000_000 }
    ∷ record { employee = 6; ctc = pos 50_000_000 }
    ∷ []

abbrev applied : Outcome Applied
applied = apply_template 10 7 (5 ∷ 6 ∷ []) (standard ∷ []) 3 assigned true (old ∷ [])

abbrev or_start : Outcome Applied → Applied
or_start (ok s) = s
or_start (raise e) = record { rows = []; created = []; skipped = [] }

-- The second assignment of employee 6 replaces the first.
in_force_now : map (λ r. r.is_active) (or_start applied).rows ≡ true ∷ false ∷ true ∷ false ∷ []
unfolding program
in_force_now = refl

one_already : create_structure 20 7 (5 ∷ []) 5 true old.structure (old ∷ []) ≡ raise conflict
unfolding program
one_already = refl

-- An hourly template makes structures without a rate.
no_rate :
    (structure_of (record standard { pay_frequency = hourly }) (pos 60_000_000)).hourly_rate ≡ pos 0
unfolding program
no_rate = refl

apply_template-IsServed_example :
    (s : Applied) × (applied ≡ ok s)
    × (length s.created + length s.skipped ≡ 4)
    × AreSingle s.rows
    × ((e : ℕ) → IsPaid e (old ∷ []) → IsPaid e s.rows)
    × All (IsServed 7 (5 ∷ 6 ∷ []) standard true s.rows) assigned
apply_template-IsServed_example =
    apply_template-IsServed 10 7 3 (5 ∷ 6 ∷ []) (standard ∷ []) standard assigned true (old ∷ [])
      refl (λ q. refl, tt) (refl, tt)
