-- ===== src/Structures/Single.antt =====
-- Applying a template against the index on the structures in force.
use croar_backend_new.Prelude.{
  ℕ, ◌≡◌, refl, sym, ◌∙◌, Bool, true, false, not, ◌&&◌, ◌||◌, List, [], ◌∷◌, inl, inr, All,
  Bool-cases, any, update_first, ◌==◌, arith,
}
use croar_backend_new.Structures.{StructureRow, in_force, is_existing, inactive}

-- What the index allows: one structure in force for each employee.
abbrev pub AreSingle : List StructureRow → Type 0
AreSingle [] = Unit
AreSingle (r ∷ rows) =
    ((r.is_active && not r.deleted) ≡ true → any (in_force r.employee) rows ≡ false)
    × AreSingle rows

abbrev pub AreOf : ℕ → List StructureRow → Type 0
AreOf company = All (λ r. (r.company == company) ≡ true)

module _ (company e : ℕ) where
  -- Of the rows of one company, the index and the query speak of the same.
  existing_of :
      (r : StructureRow) → (r.company == company) ≡ true → is_existing company e r ≡ in_force e r
  existing_of r h = rw h refl

  pub any-existing :
      (rows : List StructureRow)
      → AreOf company rows
      → any (is_existing company e) rows ≡ any (in_force e) rows
  any-existing [] h = refl
  any-existing (r ∷ rows) (here, h) = rw (here, any-existing rows h) refl

  same_employee :
      (r : StructureRow) (rows : List StructureRow)
      → in_force e r ≡ true
      → ((r.is_active && not r.deleted) ≡ true → any (in_force r.employee) rows ≡ false)
      → any (in_force e) rows ≡ false
  same_employee r rows f k =
      let q : r.employee ≡ e = ground (arith, f) in rw (← q) (k (ground (arith, f)))

  pub replaced_none :
      (rows : List StructureRow)
      → AreOf company rows
      → AreSingle rows
      → any (in_force e) (update_first (is_existing company e) inactive rows) ≡ false
  replaced_none [] h k = refl
  replaced_none (r ∷ rows) (here, h) (one, k) = elim (Bool-cases (is_existing company e r)) [
    | inl y ↦
        let f : in_force e r ≡ true = sym (existing_of r here) ∙ y in
        let off : in_force e (inactive r) ≡ false = ground arith in
        rw y (rw (off, same_employee r rows f one) refl)
    | inr n ↦
        let f : in_force e r ≡ false = sym (existing_of r here) ∙ n in
        rw n (rw (f, replaced_none rows h k) refl)
  ]

  -- Fewer structures are in force.
  replaced_fewer :
      (e' : ℕ) (rows : List StructureRow)
      → any (in_force e') rows ≡ false
      → any (in_force e') (update_first (is_existing company e) inactive rows) ≡ false
  replaced_fewer e' [] h = refl
  replaced_fewer e' (r ∷ rows) h =
      let here : in_force e' r ≡ false = ground (arith, h) in
      let later : any (in_force e') rows ≡ false = ground (arith, h) in
      elim (Bool-cases (is_existing company e r)) [
        | inl y ↦
            let off : in_force e' (inactive r) ≡ false = ground arith in rw y (rw (off, later) refl)
        | inr n ↦ rw n (rw (here, replaced_fewer e' rows later) refl)
      ]

  pub replaced-AreSingle :
      (rows : List StructureRow)
      → AreSingle rows
      → AreSingle (update_first (is_existing company e) inactive rows)
  replaced-AreSingle [] h = tt
  replaced-AreSingle (r ∷ rows) (one, h) = elim (Bool-cases (is_existing company e r)) [
    | inl y ↦ rw y (λ q. absurd cc, h)
    | inr n ↦ rw n (λ q. replaced_fewer r.employee rows (one q), replaced-AreSingle rows h)
  ]

  -- Those of other employees stay.
  pub replaced_other :
      (e' : ℕ) (rows : List StructureRow)
      → (e == e') ≡ false
      → any (in_force e') rows ≡ true
      → any (in_force e') (update_first (is_existing company e) inactive rows) ≡ true
  replaced_other e' [] d h = h
  replaced_other e' (r ∷ rows) d h = elim (Bool-cases (is_existing company e r)) [
    | inl y ↦
        let off : in_force e' r ≡ false = ground (arith, y, d) in
        let later : any (in_force e') rows ≡ true = ground (arith, off, h) in
        rw y (or_right (in_force e' (inactive r)) _ later)
    | inr n ↦ rw n (elim (Bool-cases (in_force e' r)) [
      | inl i ↦ rw i refl
      | inr o ↦ or_right (in_force e' r) _ (replaced_other e' rows d (ground (arith, o, h)))
    ])
  ]
    where
      or_right : (a b : Bool) → b ≡ true → (a || b) ≡ true
      or_right a b h' = ground arith
