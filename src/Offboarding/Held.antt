-- ===== src/Offboarding/Held.antt =====
-- That a tick does not meet two open assignments of an asset.
use croar_backend_new.Prelude.{
  ℕ, ◌≤◌, ◌≡◌, refl, false, Option, none, some, List, [], ◌∷◌, inl, inr, Bool-cases, arith, length,
  select, ◌==◌,
}
use croar_backend_new.Assets.{Asset, AssetAssignment, is_open}
use croar_backend_new.Assets.Custody.{IsInStep, out, shelved, count_open, AllInStep}
use croar_backend_new.Offboarding.{held_by}
use croar_backend_new.Offboarding.Tasks.{several, is_held_twice}

-- An asset in step is not held twice.
held_le :
    (employee : ℕ) (xs : List AssetAssignment)
    → length (select (held_by employee) xs) ≤ length (select is_open xs)
held_le employee [] = omega arith
held_le employee (x ∷ xs) =
    let ih = held_le employee xs in
    elim (Bool-cases (is_open x)) [
      | inr n ↦ rw n ih
      | inl o ↦ elim (Bool-cases (x.employee == employee)) [
        | inl y ↦ rw (o, y) (omega arith)
        | inr n ↦ rw (o, n) (omega arith)
      ]
    ]

not_several :
    (employee : ℕ) (a : Asset) → IsInStep a → several (held_by employee) a.assignments ≡ false
not_several employee a q =
    let l = held_le employee a.assignments in let m : count_open a ≤ 1 = at_most q in ground arith
  where
    at_most : IsInStep a → count_open a ≤ 1
    at_most (out s n d) = omega arith
    at_most (shelved s n) = omega arith

pub not_held_twice :
    (employee : ℕ) (asset : Option ℕ) (table : List Asset)
    → AllInStep table
    → is_held_twice employee asset table ≡ false
not_held_twice employee none table all = refl
not_held_twice employee (some id) [] all = refl
not_held_twice employee (some id) (a ∷ table) (q, all) =
    let n = not_several employee a q in
    let ih = not_held_twice employee (some id) table all in
    elim (Bool-cases (a.id == id)) [ inl y ↦ rw (y, n) ih | inr m ↦ rw m ih ]
