-- ===== src/Payslip/Structure.antt =====
-- The inputs of the payslip calculation: app/models/payroll/payroll.py (SalaryStructure), the money
-- lines of app/schemas/enterprise/payroll/payroll.py and the company's statutory configuration.
use croar_backend_new.Prelude.{Bool, Option, List}
use croar_backend_new.Prelude.Int.{ℤ}
use croar_backend_new.Money.{Money, Decimal}
use croar_backend_new.Text.{Text}
use croar_backend_new.Statutory.{PfRules}
use croar_backend_new.Tax.{Regime, Declarations, TdsRules}

-- The type of a line with what it needs. The empty `percent_of` is one that is left out.
pub data LineType : Type 0 where
  fixed : Decimal → LineType
  percent : Decimal → Text → LineType
  balance : LineType

pub record MoneyLine : Type 0 where
  pub code : Text
  pub type : LineType

pub data PayFrequency : Type 0 where
  monthly weekly hourly : PayFrequency

-- What `compute_payslip` and the payroll run read of a structure. Days are in hundredths.
pub record SalaryStructure : Type 0 where
  pub ctc : Money
  pub pay_frequency : PayFrequency
  pub hourly_rate : Money
  pub components : List MoneyLine
  pub default_deductions : List MoneyLine
  pub lop_days : ℤ
  pub pf_enabled : Bool
  pub pf_cap_at_ceiling : Option Bool
  pub pf_wage_codes : List Text
  pub esi_enabled : Bool
  pub pt_enabled : Bool
  pub tds_enabled : Bool

pub data AdjustmentKind : Type 0 where
  earning deduction : AdjustmentKind

pub record Adjustment : Type 0 where
  pub kind : AdjustmentKind
  pub code : Text
  pub amount : Decimal

-- The employee's declaration, as the run hands it over.
pub record TaxProfile : Type 0 where
  pub tax_regime : Regime
  pub declarations : Declarations
  pub prev_employer_income : Money
  pub prev_employer_tds : Money

-- `StatutoryConfig`. The cap of the provident fund comes from the structure.
pub record StatutoryConfig : Type 0 where
  pub pf : PfRules
  pub esi_wage_limit : Money
  pub esi_employee_rate : Decimal
  pub esi_employer_rate : Decimal
  pub tds : TdsRules

-- The keyword arguments of `compute_payslip`.
pub record Context : Type 0 where
  pub pt_state : Option Text
  pub adjustments : List Adjustment
  pub tds_enabled : Bool
  pub tax_profile : Option TaxProfile
  pub statutory : StatutoryConfig
  pub country : Text
