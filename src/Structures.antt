-- ===== src/Structures.antt =====
-- app/services/payroll/payroll_service.py (apply_template) and the creation of a structure in
-- app/router/enterprise/payroll/payroll.py: the salary structures of employees. The
-- partial unique index of the table allows an employee one structure that is active and not deleted.
-- Currencies and dates are left out; an amount that a request leaves out is 0.
pub mod Single
pub mod Applying
mod Examples
use croar_backend_new.Prelude.{
  ℕ, suc, Bool, true, false, not, ◌&&◌, Option, none, some, List, [], ◌∷◌, contains, any,
  find_first, update_first, ◌==◌, if◌then◌else◌, is_some,
}
use croar_backend_new.Prelude.Int.{ℤ, pos, ltb_ℤ}
use croar_backend_new.Money.{Money}
use croar_backend_new.Text.{Text, codes}
use croar_backend_new.Http.{
  Outcome, ok, not_found, conflict, server_error, raise_if, found_or, then_ok,
}
use croar_backend_new.Payslip.{Result, compute_payslip}
use croar_backend_new.Payslip.Structure.{
  SalaryStructure, MoneyLine, PayFrequency, TaxProfile, StatutoryConfig, Context,
}

pub record StructureRow : Type 0 where
  pub id : ℕ
  pub company : ℕ
  pub employee : ℕ
  pub is_active : Bool
  pub deleted : Bool
  pub structure : SalaryStructure

pub record SalaryTemplate : Type 0 where
  pub id : ℕ
  pub company : ℕ
  pub deleted : Bool
  pub pay_frequency : PayFrequency
  pub components : List MoneyLine
  pub default_deductions : List MoneyLine
  pub pf_enabled : Bool
  pub pf_cap_at_ceiling : Option Bool
  pub pf_wage_codes : List Text
  pub esi_enabled : Bool
  pub pt_enabled : Bool
  pub tds_enabled : Bool

pub record Assignment : Type 0 where
  pub employee : ℕ
  pub ctc : Money

abbrev pub is_template : ℕ → ℕ → SalaryTemplate → Bool
is_template company id t = t.id == id && (t.company == company && not t.deleted)

-- The index, for an employee.
abbrev pub in_force : ℕ → StructureRow → Bool
in_force employee r = r.employee == employee && (r.is_active && not r.deleted)

abbrev pub is_existing : ℕ → ℕ → StructureRow → Bool
is_existing company employee r = r.company == company && in_force employee r

abbrev pub inactive : StructureRow → StructureRow
inactive r = record r { is_active = false }

abbrev pub new_structure : ℕ → ℕ → ℕ → Bool → SalaryStructure → StructureRow
new_structure new company employee is_active st = record {
  id = new;
  company = company;
  employee = employee;
  is_active = is_active;
  deleted = false;
  structure = st;
}

-- A row that is flushed: the index refuses a second structure in force.
unfoldable pub insert_structure : StructureRow → List StructureRow → Outcome (List StructureRow)
insert_structure r rows =
    raise_if (r.is_active && any (in_force r.employee) rows) server_error (ok (r ∷ rows))

-- `employees` are those of the company that are not deleted.
unfoldable pub create_structure :
    ℕ → ℕ → List ℕ → ℕ → Bool → SalaryStructure → List StructureRow → Outcome (List StructureRow)
create_structure new company employees employee is_active st rows =
    raise_if (not (contains employee employees)) not_found (
      raise_if (is_active && any (is_existing company employee) rows) conflict
        (insert_structure (new_structure new company employee is_active st) rows))

-- The structure of a template for a CTC; the hourly rate is not set.
unfoldable pub structure_of : SalaryTemplate → Money → SalaryStructure
structure_of t ctc = record {
  ctc = ctc;
  pay_frequency = t.pay_frequency;
  hourly_rate = pos 0;
  components = t.components;
  default_deductions = t.default_deductions;
  lop_days = pos 0;
  pf_enabled = t.pf_enabled;
  pf_cap_at_ceiling = t.pf_cap_at_ceiling;
  pf_wage_codes = t.pf_wage_codes;
  esi_enabled = t.esi_enabled;
  pt_enabled = t.pt_enabled;
  tds_enabled = t.tds_enabled;
}

pub record Applied : Type 0 where
  pub rows : List StructureRow
  pub created : List ℕ
  pub skipped : List ℕ

abbrev pub skip : ℕ → Applied → Applied
skip employee s = record s { skipped = employee ∷ s.skipped }

abbrev pub add_created : ℕ → Applied → List StructureRow → Applied
add_created new s rows = record s { rows = rows; created = new ∷ s.created }

module _ (company : ℕ) (employees : List ℕ) (t : SalaryTemplate) (replace_existing : Bool) where
  -- Deactivates the structure in force, and flushes the new one.
  abbrev pub replaced : ℕ → List StructureRow → List StructureRow
  replaced employee rows = update_first (is_existing company employee) inactive rows

  unfoldable pub apply_one : ℕ → Assignment → Applied → Outcome Applied
  apply_one new a s =
      if not (contains a.employee employees)
      then ok (skip a.employee s)
      else if is_some (find_first (is_existing company a.employee) s.rows) && not replace_existing
      then ok (skip a.employee s)
      else then_ok
          (insert_structure (new_structure new company a.employee true (structure_of t a.ctc))
            (replaced a.employee s.rows))
          (λ rows. ok (add_created new s rows))

  unfoldable pub apply_loop : ℕ → List Assignment → Applied → Outcome Applied
  apply_loop new [] s = ok s
  apply_loop new (a ∷ rest) s = then_ok (apply_one new a s) (apply_loop (suc new) rest)

unfoldable pub apply_template :
    ℕ
    → ℕ
    → List ℕ
    → List SalaryTemplate
    → ℕ
    → List Assignment
    → Bool
    → List StructureRow
    → Outcome Applied
apply_template new company employees templates template assignments replace_existing rows =
    found_or (find_first (is_template company template) templates) not_found (λ t.
      apply_loop company employees t replace_existing new assignments
        (record { rows = rows; created = []; skipped = [] }))
