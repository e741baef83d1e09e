-- ===== src/Leave/Accrual.antt =====
-- What `_accrued_for` credits.
use croar_backend_new.Prelude.{ℕ, ◌+◌, ◌*◌, ◌≤◌, min, some, arith}
use croar_backend_new.Money.{half_even}
use croar_backend_new.Leave.{LeaveType, AccrualMethod, annual, monthly, accrued_for, months_elapsed}

half_even_low : (n : ℕ) → n ≤ half_even n 12 * 12 + 6
unfolding half_even
half_even_low n = ground arith

-- The credit never exceeds the quota, and by March, the last month of the financial year, at most
-- six hundredths of a day of the quota are missing.
pub accrued_for_bounds :
    (t : LeaveType) (month : ℕ)
    → (accrued_for t (some month) ≤ t.annual_quota) × (t.annual_quota ≤ accrued_for t (some 3) + 6)
unfolding accrued_for
accrued_for_bounds t month = (at_most t.accrual, in_march t.accrual)
  where
    credit : AccrualMethod → ℕ → ℕ
    credit a m = elim a [
      | annual ↦ t.annual_quota
      | monthly ↦ min t.annual_quota (half_even t.annual_quota 12 * months_elapsed m)
    ]

    at_most : (a : AccrualMethod) → credit a month ≤ t.annual_quota
    at_most annual = omega arith
    at_most monthly = omega arith

    in_march : (a : AccrualMethod) → t.annual_quota ≤ credit a 3 + 6
    in_march annual = omega arith
    in_march monthly = omega (arith, half_even_low t.annual_quota)
