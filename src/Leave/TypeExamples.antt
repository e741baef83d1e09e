-- ===== src/Leave/TypeExamples.antt =====
-- A company that has its own casual leave when the defaults are seeded.
use croar_backend_new.Prelude.{◌≡◌, refl, true, false, some, List, [], ◌∷◌, map, All, length, arith}
use croar_backend_new.Text.{codes}
use croar_backend_new.Http.{Outcome, ok, raise, conflict, server_error}
use croar_backend_new.Leave.{annual, LeaveBalance, accrued_for, refresh, ensure_balance}
use croar_backend_new.Leave.Balances.{IsWithin}
use croar_backend_new.Leave.Types.{
  TypeRow, LeaveTypeIn, list_types, new_type, create_type, missing, insert_types,
  seed_default_types, update_type, seed_balances, seed_grid, list_balances,
}
use croar_backend_new.Leave.Grid.{Covers, list_balances-Covers}

abbrev casual : LeaveTypeIn
casual = record {
  code = codes " cl ";
  is_paid = true;
  annual_quota = 800;
  accrual = annual;
  is_active = true;
}

abbrev own : TypeRow
own = new_type 1 7 (record casual { code = codes "CL" })

program : Unit {0}
unfolding create_type missing insert_types seed_default_types update_type seed_balances seed_grid
    list_balances ensure_balance accrued_for refresh
program = tt

created : create_type 1 7 casual [] ≡ ok (own ∷ [])
unfolding program
created = refl

twice : create_type 2 7 casual (own ∷ []) ≡ raise conflict
unfolding program
twice = refl

abbrev first_of : Outcome (List TypeRow × List TypeRow) → List TypeRow
first_of (ok (made, t)) = made
first_of (raise e) = []

abbrev second_of : Outcome (List TypeRow × List TypeRow) → List TypeRow
second_of (ok (made, t)) = t
second_of (raise e) = []

six : length (first_of (seed_default_types 10 7 (own ∷ []))) ≡ 6
unfolding program
six = refl

-- The code of a deleted type stops the seeding.
deleted_code :
    seed_default_types 10 7 (record own { kind = record own.kind { deleted = true } } ∷ [])
    ≡ raise server_error
unfolding program
deleted_code = refl

abbrev old : LeaveBalance
old = record {
  employee = 5;
  leave_type = 1;
  financial_year = codes "2026-27";
  entitled = 600;
  accrued = 600;
  used = 250;
  deleted = false;
}

abbrev grid : List LeaveBalance
grid = list_balances 7 (5 ∷ 6 ∷ []) (own ∷ []) (codes "2026-27") 6 (old ∷ [])

two_rows : map (λ b. b.accrued) grid ≡ 800 ∷ 800 ∷ []
unfolding program
two_rows = refl

list_balances-Covers_example :
    All
      (λ e. All (Covers (codes "2026-27") (some 6) grid e) (list_types 7 true (own ∷ [])))
      (5 ∷ 6 ∷ [])
    × All IsWithin grid
list_balances-Covers_example =
    list_balances-Covers 7 (5 ∷ 6 ∷ []) (own ∷ []) (codes "2026-27") 6 (old ∷ []) (omega arith, tt)
