-- ===== src/Payslip/Guards.antt =====
-- When `compute_payslip` raises, and what it returns otherwise.
use croar_backend_new.Prelude.{◌≡◌, Bool-cases, inl, inr, ◌⊎◌, arith}
use croar_backend_new.Prelude.Int.{ℤ, pos, ◌≤ℤ◌, ltb_ℤ, leb_ℤ}
use croar_backend_new.Payslip.{
  Payslip, payslip_of, compute_payslip, ok, raise, no_working_days, negative_lop, lop_exceeds,
}
use croar_backend_new.Payslip.Structure.{SalaryStructure, Context}

module _ (st : SalaryStructure) (lop working : ℤ) (c : Context) where
  -- With working days, and loss of pay between none and all of them, a payslip is returned; the
  -- first guard that fails names the error.
  pub compute_payslip_guards :
      ((compute_payslip st lop working c ≡ ok (payslip_of st lop working c))
        × ¬ (working ≤ℤ pos 0)
        × (pos 0 ≤ℤ lop)
        × (lop ≤ℤ working))
      ⊎ ((compute_payslip st lop working c ≡ raise no_working_days) × (working ≤ℤ pos 0))
      ⊎ ((compute_payslip st lop working c ≡ raise negative_lop)
          × ¬ (working ≤ℤ pos 0)
          × ¬ (pos 0 ≤ℤ lop))
      ⊎ ((compute_payslip st lop working c ≡ raise lop_exceeds)
          × ¬ (working ≤ℤ pos 0)
          × (pos 0 ≤ℤ lop)
          × ¬ (lop ≤ℤ working))
  unfolding compute_payslip
  compute_payslip_guards = elim (Bool-cases (leb_ℤ working (pos 0))) [
    | inl a ↦ inr (inl (rw a, ground arith))
    | inr a ↦ elim (Bool-cases (ltb_ℤ lop (pos 0))) [
      | inl b ↦ inr (inr (inl (rw (a, b), ground arith, ground arith)))
      | inr b ↦ elim (Bool-cases (ltb_ℤ working lop)) [
        | inl d ↦ inr (inr (inr (rw (a, b, d), ground arith, ground arith, ground arith)))
        | inr d ↦ inl (rw (a, b, d), ground arith, ground arith, ground arith)
      ]
    ]
  ]

  -- What a payslip that was returned is.
  pub payslip_of_ok :
      {p : Payslip} → compute_payslip st lop working c ≡ ok p → payslip_of st lop working c ≡ p
  unfolding compute_payslip
  payslip_of_ok h = elim compute_payslip_guards [
    | inl (e, _, _, _) ↦ cc
    | inr (inl (e, _)) ↦ cc
    | inr (inr (inl (e, _, _))) ↦ cc
    | inr (inr (inr (e, _, _, _))) ↦ cc
  ]
