-- ===== src/Structures/Applying.antt =====
-- That a template is applied, and to whom.
use croar_backend_new.Prelude.{
  ℕ, suc, ◌+◌, ◌≡◌, refl, sym, ◌∙◌, Bool, true, not, ◌&&◌, ◌||◌, some, is_some, List, [], ◌∷◌, inl,
  inr, All, All-update_first, Bool-cases, contains, any, find_first, length, ◌==◌, arith,
}
use croar_backend_new.Http.{ok}
use croar_backend_new.Structures.{
  StructureRow, SalaryTemplate, Assignment, Applied, in_force, is_existing, inactive,
  insert_structure, new_structure, structure_of, replaced, skip, add_created, apply_one, apply_loop,
  apply_template, is_template,
}
use croar_backend_new.Structures.Single.{
  AreSingle, AreOf, replaced_none, replaced-AreSingle, replaced_other, any-existing,
}

abbrev handled : Applied → ℕ
handled s = length s.created + length s.skipped

abbrev pub IsPaid : ℕ → List StructureRow → Type 0
IsPaid e rows = any (in_force e) rows ≡ true

is_some-any :
    (p : StructureRow → Bool) (rows : List StructureRow) → is_some (find_first p rows) ≡ any p rows
is_some-any p [] = refl
is_some-any p (r ∷ rows) = elim (Bool-cases (p r)) [
  | inl y ↦ rw y refl
  | inr n ↦ rw (n, is_some-any p rows) refl
]

module _ (company : ℕ) (employees : List ℕ) (t : SalaryTemplate) (replace_existing : Bool) where
  -- What a step of the loop, or several, did.
  record Goes (s s' : Applied) : Type 0 where
    pub single : AreSingle s'.rows
    pub own : AreOf company s'.rows
    pub others : (e : ℕ) → IsPaid e s.rows → IsPaid e s'.rows

  one_applied :
      (new : ℕ) (a : Assignment) (s : Applied)
      → AreSingle s.rows
      → AreOf company s.rows
      → (s' : Applied) × (apply_one company employees t replace_existing new a s ≡ ok s')
        × Goes s s'
        × (handled s' ≡ suc (handled s))
        × (contains a.employee employees ≡ true → IsPaid a.employee s'.rows)
  unfolding apply_one insert_structure
  one_applied new a s one own = elim (Bool-cases (contains a.employee employees)) [
    | inr n ↦ (
      skip a.employee s,
      rw n refl,
      record { single = one; own = own; others = λ e h. h },
      omega arith,
      λ h. absurd cc,
    )
    | inl y ↦
        elim (Bool-cases
          (is_some (find_first (is_existing company a.employee) s.rows) && not replace_existing)) [
            | inl k ↦ (
              skip a.employee s,
              rw (y, k) refl,
              record { single = one; own = own; others = λ e h. h },
              omega arith,
              λ h.
                  sym (any-existing company a.employee s.rows own)
                  ∙ (sym (is_some-any (is_existing company a.employee) s.rows) ∙ ground (arith, k)),
            )
            | inr m ↦
                let free = replaced_none company a.employee s.rows own one in
                let rows = replaced company employees t replace_existing a.employee s.rows in
                let made = new_structure new company a.employee true (structure_of t a.ctc) in
                let self : (company == company) ≡ true = ground arith in
                let fresh : in_force a.employee made ≡ true = ground arith in
                (
                  add_created new s (made ∷ rows),
                  rw (y, m, free) refl,
                  record {
                    single = (λ q. free, replaced-AreSingle company a.employee s.rows one);
                    own = (
                      self,
                      All-update_first (λ r. (r.company == company) ≡ true)
                          (is_existing company a.employee) inactive s.rows (λ r h. h) own,
                    );
                    others = λ e h. elim (Bool-cases (a.employee == e)) [
                      | inl q ↦ let f : in_force e made ≡ true = ground (arith, q) in rw f refl
                      | inr d ↦
                          or_right (in_force e made) _
                            (replaced_other company a.employee e s.rows d h)
                    ];
                  },
                  omega arith,
                  λ h. rw fresh refl,
                )
          ]
  ]
    where
      or_right : (a b : Bool) → b ≡ true → (a || b) ≡ true
      or_right a b h' = ground arith

  -- Of an assignment, whether the employee, where there is one, has a structure in force.
  abbrev pub IsServed : List StructureRow → Assignment → Type 0
  IsServed rows a = contains a.employee employees ≡ true → IsPaid a.employee rows

  loop_applied :
      (new : ℕ) (rest : List Assignment) (s : Applied)
      → AreSingle s.rows
      → AreOf company s.rows
      → (s' : Applied) × (apply_loop company employees t replace_existing new rest s ≡ ok s')
        × Goes s s'
        × (handled s' ≡ length rest + handled s)
        × All (IsServed s'.rows) rest
  unfolding apply_loop
  loop_applied new [] s one own =
      (s, refl, record { single = one; own = own; others = λ e h. h }, omega arith, tt)
  loop_applied new (a ∷ rest) s one own =
      let x = one_applied new a s one own in
      let y = loop_applied (suc new) rest x.0 x.2.single x.2.own in
      (
        y.0,
        rw x.1 y.1,
        record {
          single = y.2.single;
          own = y.2.own;
          others = λ e h. y.2.others e (x.2.others e h);
        },
        (let p = x.3 in let q = y.3 in omega arith),
        (λ h. y.2.others a.employee (x.4 h), y.4),
      )

-- On the structures of a company of which each employee has one in force at most, a template that is
-- found is applied, whatever the assignments are, repeated employees included: the index is never hit,
-- every assignment is either created or skipped, and afterwards each employee has one structure in
-- force at most, those who had one have one, and every assigned employee who exists has one.
pub apply_template-IsServed :
    (new company template : ℕ) (employees : List ℕ) (templates : List SalaryTemplate)
    (t : SalaryTemplate) (assignments : List Assignment) (replace_existing : Bool)
    (rows : List StructureRow)
    → find_first (is_template company template) templates ≡ some t
    → AreSingle rows
    → AreOf company rows
    → (s : Applied) × (apply_template new company employees templates template assignments
          replace_existing rows
        ≡ ok s)
      × (length s.created + length s.skipped ≡ length assignments)
      × AreSingle s.rows
      × ((e : ℕ) → IsPaid e rows → IsPaid e s.rows)
      × All (IsServed company employees t replace_existing s.rows) assignments
unfolding apply_template
apply_template-IsServed new company template employees templates t assignments replace_existing rows
      f one own =
    let k =
      loop_applied company employees t replace_existing new assignments
        (record { rows = rows; created = []; skipped = [] }) one own in
    (k.0, rw f k.1, (let q = k.3 in omega arith), k.2.single, k.2.others, k.4)
