-- ===== src/Calendar/Served.antt =====
-- That an import goes through.
use croar_backend_new.Prelude.{
  ℕ, ◌+◌, ◌-◌, ◌≡◌, refl, Bool, true, false, not, ◌&&◌, ◌||◌, Bool-cases, inl, inr, List, [], ◌∷◌,
  All, length, map, select, any, contains, ◌==◌, arith,
}
use croar_backend_new.Http.{ok}
use croar_backend_new.Calendar.{
  Holiday, taken, live, live_dates, Plan, plan, add_row, skip, insert_all, kept, clear_years,
  year_of, Report, report, import_holidays,
}

-- A row of the company that is deleted.
abbrev pub is_gone : ℕ → Holiday → Bool
is_gone company h = h.company == company && h.deleted

or_right : (a b : Bool) → b ≡ true → (a || b) ≡ true
or_right true b h = refl
or_right false b h = h

eq_refl : (m : ℕ) → (m == m) ≡ true
eq_refl m = ground arith

or_false : (a b : Bool) → (a || b) ≡ false → (a ≡ false) × (b ≡ false)
or_false true b h = cc
or_false false b h = (refl, h)

module _ (company : ℕ) where
  -- Where no row of the company is deleted, a date that is taken is that of a live row.
  live-taken :
      (d : ℕ) (table : List Holiday)
      → any (is_gone company) table ≡ false
      → taken company d table ≡ true
      → contains d (live_dates company table) ≡ true
  live-taken d [] n h = cc
  live-taken d (g ∷ table) n h =
      let (here, there) = or_false (is_gone company g) (any (is_gone company) table) n in
      elim (Bool-cases (g.company == company)) [
        | inl y ↦
            let free : g.deleted ≡ false = ground (arith, here, y) in
            let l : live company g ≡ true = ground (arith, y, free) in
            elim (Bool-cases (g.date == d)) [
              | inl z ↦ let z' : (d == g.date) ≡ true = ground (arith, z) in rw (l, z') refl
              | inr m ↦
                  rw l (or_right (d == g.date) _ (live-taken d table there (ground (arith, h, m))))
            ]
        | inr m ↦
            let l : live company g ≡ false = ground (arith, m) in
            rw l (live-taken d table there (ground (arith, h, m)))
      ]

  kept-whole :
      (rows : List (ℕ × ℕ)) (replace : Bool) (table : List Holiday)
      → any (is_gone company) table ≡ false
      → any (is_gone company) (kept company rows replace table) ≡ false
  unfolding kept clear_years
  kept-whole rows false table n = n
  kept-whole rows true table n =
      select_whole
        (λ h. not (live company h && contains (year_of h.date) (map (λ r. year_of r.1) rows))) table
        n
    where
      select_whole :
          (p : Holiday → Bool) (table : List Holiday)
          → any (is_gone company) table ≡ false
          → any (is_gone company) (select p table) ≡ false
      select_whole p [] n = refl
      select_whole p (g ∷ table) n =
          let (here, there) = or_false (is_gone company g) (any (is_gone company) table) n in
          elim (Bool-cases (p g)) [
            | inl y ↦ rw (y, here) (select_whole p table there)
            | inr m ↦ rw m (select_whole p table there)
          ]

  abbrev added : ℕ → ℕ → Holiday
  added id date = record { id = id; company = company; date = date; deleted = false }

  live_dates-added :
      (id date : ℕ) (table : List Holiday)
      → live_dates company (added id date ∷ table) ≡ date ∷ live_dates company table
  live_dates-added id date table = rw (eq_refl company) refl

  module _ (present : List ℕ) where
    -- The dates that the loop knows are those that are taken, and they are live.
    record IsKnown (seen : List ℕ) (table : List Holiday) : Type 0 where
      pub known :
          (d : ℕ) → taken company d table ≡ true → (contains d present || contains d seen) ≡ true
      pub shown :
          (d : ℕ)
          → (contains d present || contains d seen) ≡ true
          → contains d (live_dates company table) ≡ true

    added-IsKnown :
        (id date : ℕ) (seen : List ℕ) (table : List Holiday)
        → IsKnown seen table
        → IsKnown (date ∷ seen) (added id date ∷ table)
    added-IsKnown id date seen table k = record {
      known = λ d h. elim (Bool-cases (date == d)) [
        | inl y ↦ let z : (d == date) ≡ true = ground (arith, y) in ground (arith, z)
        | inr n ↦ let q = k.known d (ground (arith, h, n)) in ground (arith, q)
      ];
      shown = λ d h. elim (Bool-cases (d == date)) [
        | inl y ↦ rw (live_dates-added id date table) (rw y refl)
        | inr n ↦
            let q = k.shown d (ground (arith, h, n)) in
            rw (live_dates-added id date table) (or_right (d == date) _ q)
      ];
    }

    -- What the commit of the rows of a plan leaves.
    record IsServed (rows : List (ℕ × ℕ)) (p : Plan) (table after : List Holiday) : Type 0 where
      pub inserted : insert_all p.rows table ≡ ok after
      pub stays :
          (d : ℕ)
          → contains d (live_dates company table) ≡ true
          → contains d (live_dates company after) ≡ true
      pub served : All (λ r. contains r.1 (live_dates company after) ≡ true) rows
      pub counted : length p.rows + length p.skipped ≡ length rows

    plan-IsServed :
        (rows : List (ℕ × ℕ)) (seen : List ℕ) (table : List Holiday)
        → IsKnown seen table
        → (after : List Holiday) × IsServed rows (plan company present seen rows) table after
    unfolding plan add_row skip insert_all
    plan-IsServed [] seen table k =
        (table, record { inserted = refl; stays = λ d h. h; served = tt; counted = refl })
    plan-IsServed ((id, date) ∷ rows) seen table k =
        elim (Bool-cases (contains date present || contains date seen)) [
          | inl y ↦
              let (after, s) = plan-IsServed rows seen table k in
              (
                after,
                rw y (record {
                  inserted = s.inserted;
                  stays = s.stays;
                  served = (s.stays date (k.shown date y), s.served);
                  counted = omega (arith, s.counted);
                }),
              )
          | inr n ↦
              let (after, s) =
                plan-IsServed rows (date ∷ seen) (added id date ∷ table)
                  (added-IsKnown id date seen table k) in
              let free : taken company date table ≡ false =
                not_taken (taken company date table) (k.known date) n in
              let there = live_dates-added id date table in
              (
                after,
                rw n (record {
                  inserted = rw free s.inserted;
                  stays = λ d h. s.stays d (rw there (or_right (d == date) _ h));
                  served = (s.stays date (rw (there, eq_refl date) refl), s.served);
                  counted = omega (arith, s.counted);
                }),
              )
        ]
      where
        not_taken : (b : Bool) {c : Bool} → (b ≡ true → c ≡ true) → c ≡ false → b ≡ false
        not_taken true h n = let y = h refl in cc
        not_taken false h n = refl

  -- Where no row of the company is deleted, an import goes through: its rows never meet the unique
  -- constraint, every date of the file is that of a live holiday afterwards, and the report counts
  -- each row of the file as created or as skipped.
  pub import_holidays_served :
      (rows : List (ℕ × ℕ)) (replace : Bool) (table : List Holiday)
      → any (is_gone company) table ≡ false
      → (after : List Holiday) × (r : Report) × (import_holidays company rows replace table
          ≡ ok (after, r))
        × All (λ row. contains row.1 (live_dates company after) ≡ true) rows
        × (r.created + length r.skipped ≡ length rows)
  unfolding import_holidays report
  import_holidays_served [] replace table n =
      (table, record { created = 0; skipped = []; replaced = 0 }, refl, tt, refl)
  import_holidays_served (row ∷ rows) replace table n =
      let left = kept company (row ∷ rows) replace table in
      let whole = kept-whole (row ∷ rows) replace table n in
      let p = plan company (live_dates company left) [] (row ∷ rows) in
      let (after, s) = plan-IsServed (live_dates company left) (row ∷ rows) [] left (record {
        known = λ d h. or_left _ false (live-taken d left whole h);
        shown = λ d h. from_left _ h;
      }) in
      (after, report p (length table - length left), rw s.inserted refl, s.served, s.counted)
    where
      from_left : (a : Bool) → (a || false) ≡ true → a ≡ true
      from_left true h = refl
      from_left false h = cc

      or_left : (a b : Bool) → a ≡ true → (a || b) ≡ true
      or_left a b h = rw h refl
