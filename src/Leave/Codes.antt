-- ===== src/Leave/Codes.antt =====
-- The codes of the leave types, and the default types.
use croar_backend_new.Prelude.{
  ℕ, suc, ◌≡◌, refl, ap, ◌∙◌, Bool, true, false, not, ◌&&◌, ◌||◌, List, [], ◌∷◌, inl, inr, All,
  All-map, Bool-cases, find_first, update_first, ◌==◌, if◌then◌else◌, arith,
}
use croar_backend_new.Text.{Text, text_eq, text_eq_refl}
use croar_backend_new.Http.{ok, raise_if_ok, found_or_ok, then_ok_ok, ok-inj}
use croar_backend_new.Leave.Types.{
  TypeRow, LeaveTypeIn, LeaveTypeUpdate, list_types, code_taken, has_code, new_type, clean,
  create_type, default_leave_types, missing, insert_types, seed_default_types, updated, is_type_row,
  update_type,
}

-- One row for each company and code.
abbrev pub AreUnique : List TypeRow → Type 0
AreUnique [] = Unit
AreUnique (r ∷ rows) = (code_taken r.kind.company r.code rows ≡ false) × AreUnique rows

-- The operations on leave types, where they succeed.
pub data Step (rows t : List TypeRow) : Type 0 where
  creating :
      (new company : ℕ) (body : LeaveTypeIn)
      → create_type new company body rows ≡ ok t
      → Step rows t
  seeding :
      (new company : ℕ) (created : List TypeRow)
      → seed_default_types new company rows ≡ ok (created, t)
      → Step rows t
  updating :
      (company id : ℕ) (changes : LeaveTypeUpdate)
      → update_type company id changes rows ≡ ok t
      → Step rows t

insert_types-AreUnique :
    (created rows t : List TypeRow)
    → insert_types created rows ≡ ok t
    → AreUnique rows
    → AreUnique t
unfolding insert_types
insert_types-AreUnique [] rows t e h = rw (← ok-inj rows t e) h
insert_types-AreUnique (r ∷ created) rows t e h =
    let k = raise_if_ok (code_taken r.kind.company r.code rows) _ _ t e in
    insert_types-AreUnique created (r ∷ rows) t k.1 (k.0, h)

update-taken :
    (p : TypeRow → Bool) (changes : LeaveTypeUpdate) (company : ℕ) (code : Text)
    (rows : List TypeRow)
    → code_taken company code (update_first p (updated changes) rows) ≡ code_taken company code rows
update-taken p changes company code [] = refl
update-taken p changes company code (r ∷ rows) = elim (Bool-cases (p r)) [
  | inl y ↦ rw y refl
  | inr n ↦ rw (n, update-taken p changes company code rows) refl
]

update-AreUnique :
    (p : TypeRow → Bool) (changes : LeaveTypeUpdate) (rows : List TypeRow)
    → AreUnique rows
    → AreUnique (update_first p (updated changes) rows)
update-AreUnique p changes [] h = tt
update-AreUnique p changes (r ∷ rows) (here, h) = elim (Bool-cases (p r)) [
  | inl y ↦ rw y (here, h)
  | inr n ↦
      rw n (
        update-taken p changes r.kind.company r.code rows ∙ here,
        update-AreUnique p changes rows h,
      )
]

-- Creating, seeding and updating leave types keep one row, deleted or not, for a company and a code.
pub step-AreUnique : (rows t : List TypeRow) → Step rows t → AreUnique rows → AreUnique t
unfolding create_type seed_default_types update_type
step-AreUnique rows t (creating new company body e) h =
    let k = raise_if_ok (code_taken company (clean body).code rows) _ _ t e in
    rw (← ok-inj _ t k.1) (k.0, h)
step-AreUnique rows t (seeding new company created e) h =
    let k =
      then_ok_ok
        (insert_types (missing new company (list_types company false rows) default_leave_types)
          rows)
        _ (created, t) e in
    let same : k.0 ≡ t =
      ap (λ (x : List TypeRow × List TypeRow). x.1) (ok-inj _ (created, t) k.2) in
    insert_types-AreUnique (missing new company (list_types company false rows) default_leave_types)
      rows t (rw (← same) k.1) h
step-AreUnique rows t (updating company id changes e) h =
    let k = found_or_ok (find_first (is_type_row company id) rows) _ _ t e in
    rw (← ok-inj _ t k.2) (update-AreUnique (is_type_row company id) changes rows h)

module _ (company : ℕ) (code : Text) where
  -- The code is that of a type of the company that is not deleted.
  abbrev pub offers : List TypeRow → Bool
  offers rows = has_code code (list_types company false rows)

  abbrev named : TypeRow → Bool
  named r = (r.kind.company == company && not r.kind.deleted) && text_eq r.code code

  offers_step : (r : TypeRow) (rows : List TypeRow) → offers (r ∷ rows) ≡ (named r || offers rows)
  offers_step r rows = elim (Bool-cases (r.kind.company == company)) [
    | inr n ↦ rw n refl
    | inl y ↦ elim (Bool-cases r.kind.deleted) [
      | inl d ↦ rw (y, d) refl
      | inr l ↦ elim (Bool-cases r.is_active) [
        | inl a ↦ rw (y, l, a) refl
        | inr n ↦ rw (y, l, n) refl
      ]
    ]
  ]

  insert_types-offers :
      (created rows t : List TypeRow)
      → insert_types created rows ≡ ok t
      → (offers rows || offers created) ≡ true
      → offers t ≡ true
  unfolding insert_types
  insert_types-offers [] rows t e h = rw (← ok-inj rows t e) (or_none (offers rows) h)
    where
      or_none : (b : Bool) → (b || false) ≡ true → b ≡ true
      or_none b h' = ground arith
  insert_types-offers (r ∷ created) rows t e h =
      insert_types-offers created (r ∷ rows) t
        (raise_if_ok (code_taken r.kind.company r.code rows) _ _ t e).1
        (rw (offers_step r rows)
          (swap (named r) (offers rows) (offers created) (rw (← offers_step r created) h)))
    where
      swap : (a b c : Bool) → (b || (a || c)) ≡ true → ((a || b) || c) ≡ true
      swap a b c h' = ground arith

module _ (company : ℕ) (existing : List TypeRow) where
  abbrev Reaches : List TypeRow → LeaveTypeIn → Type 0
  Reaches rows d = (has_code d.code existing || offers company d.code rows) ≡ true

  missing-Reaches :
      (new : ℕ) (ds : List LeaveTypeIn) → All (Reaches (missing new company existing ds)) ds
  unfolding missing
  missing-Reaches new [] = tt
  missing-Reaches new (d ∷ ds) =
      added (missing (suc new) company existing ds) (has_code d.code existing) refl
        (missing-Reaches (suc new) ds)
    where
      self : named company d.code (new_type new company d) ≡ true
      self = let e : (company == company) ≡ true = ground arith in rw (e, text_eq_refl d.code) refl

      or_true : (a : Bool) → (a || true) ≡ true
      or_true a = ground arith

      or_more : (a b c : Bool) → (a || c) ≡ true → (a || (b || c)) ≡ true
      or_more a b c h = ground arith

      added :
          (rest : List TypeRow) (b : Bool)
          → has_code d.code existing ≡ b
          → All (Reaches rest) ds
          → All (Reaches (if b then rest else new_type new company d ∷ rest)) (d ∷ ds)
      added rest true y h = (rw y refl, h)
      added rest false n h = (
        rw (offers_step company d.code (new_type new company d) rest, self)
            (or_true (has_code d.code existing)),
        All-map (Reaches rest) (Reaches (new_type new company d ∷ rest))
            (λ x k. rw (offers_step company x.code (new_type new company d) rest) (
              or_more (has_code x.code existing) (named company x.code (new_type new company d)) _
                k))
            ds h,
      )

  missing_none :
      (new : ℕ) (ds : List LeaveTypeIn)
      → All (λ d. has_code d.code existing ≡ true) ds
      → missing new company existing ds ≡ []
  unfolding missing
  missing_none new [] h = refl
  missing_none new (d ∷ ds) (here, h) = rw here (missing_none (suc new) ds h)

-- Seeding that succeeds leaves the company with a live type for the code of every default, and
-- seeding again creates nothing and leaves the table as it is.
pub seed_default_types-again :
    (new new' company : ℕ) (rows created t : List TypeRow)
    → seed_default_types new company rows ≡ ok (created, t)
    → All (λ d. offers company d.code t ≡ true) default_leave_types
      × (seed_default_types new' company t ≡ ok ([], t))
unfolding seed_default_types insert_types
seed_default_types-again new new' company rows created t e =
    let existing = list_types company false rows in
    let made = missing new company existing default_leave_types in
    let k = then_ok_ok (insert_types made rows) _ (created, t) e in
    let same : k.0 ≡ t =
      ap (λ (x : List TypeRow × List TypeRow). x.1) (ok-inj _ (created, t) k.2) in
    let inserted : insert_types made rows ≡ ok t = rw (← same) k.1 in
    let there : All (λ d. offers company d.code t ≡ true) default_leave_types =
      All-map (Reaches company existing made) (λ d. offers company d.code t ≡ true)
        (λ d h. insert_types-offers company d.code made rows t inserted h) default_leave_types
        (missing-Reaches company existing new default_leave_types) in
    (
      there,
      rw (missing_none company (list_types company false t) new' default_leave_types there) refl,
    )
