-- ===== src/Line.antt =====
-- The resolved money lines of a payslip (`{"code": ..., "amount": ...}`); labels, which no
-- computation reads, are left out. An amount at two places is the same number before and after its
-- trip through `float` and `str`.
use croar_backend_new.Prelude.{◌≡◌, List, [], ◌∷◌, ◌++◌, map}
use croar_backend_new.Prelude.Int.{◌+ℤ◌, sum_ℤ, sum_ℤ-append, int_laws}
use croar_backend_new.Money.{Money}
use croar_backend_new.Text.{Text}
use mathlib.Core.List.{map-append}

pub record Pay : Type 0 where
  pub code : Text
  pub amount : Money

abbrev pub pay : Text → Money → Pay
pay c a = record { code = c; amount = a }

-- The sum of the amounts of the lines.
abbrev pub total : List Pay → Money
total lines = sum_ℤ (map (λ p. p.amount) lines)

pub total-append : (xs ys : List Pay) → total (xs ++ ys) ≡ total xs +ℤ total ys
total-append xs ys = rw map-append (sum_ℤ-append (map (λ p. p.amount) xs) (map (λ p. p.amount) ys))

pub total-snoc : (xs : List Pay) (p : Pay) → total (xs ++ p ∷ []) ≡ total xs +ℤ p.amount
total-snoc xs p = rw (total-append xs (p ∷ [])) (omega int_laws)
