-- ===== src/Credits/Examples.antt =====
-- A wallet that is charged and topped up, with columns that round half away from zero.
use croar_backend_new.Prelude.{ℕ, suc, ◌≡◌, refl, true, some, none, List, [], ◌∷◌, arith, map}
use croar_backend_new.Prelude.Int.{ℤ, pos, negsuc, ◌-ℤ◌, ◌+ℤ◌}
use croar_backend_new.Text.{codes}
use croar_backend_new.Money.{half_up, half_up_ℕ, half_even, ◌*ℤ◌}
use croar_backend_new.Money.Rounding.{half_up_ℕ_nearest}
use croar_backend_new.Credits.{
  Units, Wallet, rate_of, cost_for, ai_credits_for_tokens, write, record_usage, record_ai_usage,
  grant,
}
use croar_backend_new.Credits.Columns.{IsNearest}
use croar_backend_new.Credits.Ledger.{IsAudited, Op, meter, ai_call, top_up, run, run-IsAudited}

abbrev column : ℤ → ℤ
column x = half_up x 100

column-IsNearest : IsNearest column
unfolding half_up ◌*ℤ◌ ◌+ℤ◌
column-IsNearest (pos n) =
    let h = half_up_ℕ_nearest n 100 (omega arith) in (ground arith, ground arith)
column-IsNearest (negsuc n) =
    let h = half_up_ℕ_nearest (suc n) 100 (omega arith) in (ground arith, ground arith)

program : Unit {0}
unfolding rate_of cost_for ai_credits_for_tokens write record_usage record_ai_usage grant half_up
    half_up_ℕ half_even ◌*ℤ◌ ◌+ℤ◌ ◌-ℤ◌
program = tt

abbrev units : ℕ → Units
units n = record { digits = pos n; places = 0 }

costs :
    (cost_for (codes "sourcing") (codes "profile") (units 25) ≡ 2500)
    × (cost_for (codes "interview") (codes "replay") (units 2) ≡ 1000)
    × (cost_for (codes "export") (codes "profile") (units 2) ≡ 0)
unfolding program
costs = (refl, refl, refl)

abbrev empty : Wallet
empty = record { account = none; transactions = [] }

abbrev ops : List Op
ops =
    meter true (codes "sourcing") (codes "profile") (units 25)
    ∷ top_up (pos 5000)
    ∷ ai_call true 1200 800
    ∷ []

-- 1000.00 - 25.00 + 50.00 - 1.04
after_ops :
    (run column ops empty).account
    ≡ some (record { balance = pos 102_396; total_granted = pos 105_000; total_used = pos 2604 })
unfolding program
after_ops = refl

-- A call that costs exactly half a hundredth is in the ledger and not in the balance.
half_call :
    ((run column (ai_call true 25 0 ∷ []) empty).account
      ≡ some (record { balance = pos 100_000; total_granted = pos 100_000; total_used = pos 1 }))
    × (map (λ t. t.amount) (run column (ai_call true 25 0 ∷ []) empty).transactions ≡ negsuc 0 ∷ [])
unfolding program
half_call = (refl, refl)

run-IsAudited_example : IsAudited (run column ops empty)
run-IsAudited_example = run-IsAudited column column-IsNearest ops empty refl
