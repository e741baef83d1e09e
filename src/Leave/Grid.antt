-- ===== src/Leave/Grid.antt =====
-- What listing the balances leaves in the table of balances.
use croar_backend_new.Prelude.{
  ℕ, ◌≡◌, refl, ◌∙◌, Bool, true, false, Option, some, is_some, List, [], ◌∷◌, inl, inr, All,
  All-map, Bool-cases, find_first, update_first, ◌==◌, if◌then◌else◌, arith, if_both,
}
use croar_backend_new.Text.{Text, text_eq_refl}
use croar_backend_new.Leave.{
  LeaveBalance, LeaveType, accrued_for, is_balance, refresh, ensure_balance,
}
use croar_backend_new.Leave.Balances.{IsWithin, ensure-IsWithin}
use croar_backend_new.Leave.Types.{TypeRow, list_types, seed_balances, seed_grid, list_balances}

-- The employee has a balance of the type in the year.
abbrev pub Has : ℕ → LeaveType → Text → List LeaveBalance → Type 0
Has employee t year balances = is_some (find_first (is_balance employee t.id year) balances) ≡ true

-- A change that keeps what a test asks keeps what it finds.
keeps_found :
    (p q : LeaveBalance → Bool) (f : LeaveBalance → LeaveBalance)
    → ((b : LeaveBalance) → q (f b) ≡ q b)
    → (rows : List LeaveBalance)
    → is_some (find_first q (update_first p f rows)) ≡ is_some (find_first q rows)
keeps_found p q f k [] = refl
keeps_found p q f k (b ∷ rows) = elim (Bool-cases (p b)) [
  | inl y ↦ elim (Bool-cases (q b)) [
    | inl z ↦ rw y (rw (k b, z) refl)
    | inr n ↦ rw y (rw (k b, n) refl)
  ]
  | inr m ↦ elim (Bool-cases (q b)) [
    | inl z ↦ rw m (rw z refl)
    | inr n ↦ rw m (rw n (keeps_found p q f k rows))
  ]
]

refresh-is_balance :
    (employee id : ℕ) (year : Text) (quota accrued : ℕ) (b : LeaveBalance)
    → is_balance employee id year (refresh quota accrued b) ≡ is_balance employee id year b
unfolding refresh
refresh-is_balance employee id year quota accrued b = refl

module _ (employee : ℕ) (t : LeaveType) (year : Text) (month : Option ℕ) where
  -- The balance is there afterwards, and no other is lost.
  ensure_self :
      (rows : List LeaveBalance) → Has employee t year (ensure_balance employee t year month rows)
  unfolding ensure_balance
  ensure_self rows =
      let mine = is_balance employee t.id year in
      let f = refresh t.annual_quota (accrued_for t month) in
      elim (Bool-cases (is_some (find_first mine rows))) [
        | inl y ↦
            rw y (keeps_found mine mine f (refresh-is_balance employee t.id year _ _) rows ∙ y)
        | inr n ↦ rw n (
            let e : (employee == employee) ≡ true = ground arith in
            let i : (t.id == t.id) ≡ true = ground arith in rw (e, i, text_eq_refl year) refl)
      ]

  ensure_other :
      (employee' : ℕ) (t' : LeaveType) (year' : Text) (rows : List LeaveBalance)
      → Has employee' t' year' rows
      → Has employee' t' year' (ensure_balance employee t year month rows)
  unfolding ensure_balance
  ensure_other employee' t' year' rows h =
      let mine = is_balance employee t.id year in
      let other = is_balance employee' t'.id year' in
      let f = refresh t.annual_quota (accrued_for t month) in
      elim (Bool-cases (is_some (find_first mine rows))) [
        | inl y ↦
            rw y (keeps_found mine other f (refresh-is_balance employee' t'.id year' _ _) rows ∙ h)
        | inr n ↦ rw n (
            added other
              (record {
                employee = employee;
                leave_type = t.id;
                financial_year = year;
                entitled = t.annual_quota;
                accrued = accrued_for t month;
                used = 0;
                deleted = false;
              })
              rows h)
      ]
    where
      added :
          (q : LeaveBalance → Bool) (b : LeaveBalance) (rows' : List LeaveBalance)
          → is_some (find_first q rows') ≡ true
          → is_some (find_first q (b ∷ rows')) ≡ true
      added q b rows' h' = elim (Bool-cases (q b)) [ inl y ↦ rw y refl | inr n ↦ rw n h' ]

module _ (year : Text) (month : Option ℕ) where
  seed_balances_keeps :
      (employee e : ℕ) (t : LeaveType) (rs : List TypeRow) (balances : List LeaveBalance)
      → Has e t year balances
      → Has e t year (seed_balances employee rs year month balances)
  unfolding seed_balances
  seed_balances_keeps employee e t [] balances h = h
  seed_balances_keeps employee e t (r ∷ rs) balances h = seed_balances_keeps employee e t rs _ (
      if_both (Has e t year) r.kind.is_paid _ balances
        (λ y. ensure_other employee r.kind year month e t year balances h) (λ n. h))

  -- The paid types have balances of the employee.
  abbrev pub Covers : List LeaveBalance → ℕ → TypeRow → Type 0
  Covers balances e r = r.kind.is_paid ≡ true → Has e r.kind year balances

  seed_balances-Covers :
      (e : ℕ) (rs : List TypeRow) (balances : List LeaveBalance)
      → All (Covers (seed_balances e rs year month balances) e) rs
  unfolding seed_balances
  seed_balances-Covers e [] balances = tt
  seed_balances-Covers e (r ∷ rs) balances = (
    λ p. seed_balances_keeps e e r.kind rs _ (
        if_both (Has e r.kind year) r.kind.is_paid _ balances
          (λ y. ensure_self e r.kind year month balances)
          (λ n. let c : true ≡ false = rw (← p) n in absurd cc)),
    seed_balances-Covers e rs
        (if r.kind.is_paid then ensure_balance e r.kind year month balances else balances),
  )

  seed_grid_keeps :
      (es : List ℕ) (types : List TypeRow) (e : ℕ) (t : LeaveType) (balances : List LeaveBalance)
      → Has e t year balances
      → Has e t year (seed_grid es types year month balances)
  unfolding seed_grid
  seed_grid_keeps [] types e t balances h = h
  seed_grid_keeps (x ∷ es) types e t balances h =
      seed_grid_keeps es types e t _ (seed_balances_keeps x e t types balances h)

  seed_grid-Covers :
      (es : List ℕ) (types : List TypeRow) (balances : List LeaveBalance)
      → All (λ e. All (Covers (seed_grid es types year month balances) e) types) es
  unfolding seed_grid
  seed_grid-Covers [] types balances = tt
  seed_grid-Covers (e ∷ es) types balances =
      let mine = seed_balances e types year month balances in
      (
        All-map (Covers mine e) (Covers (seed_grid es types year month mine) e)
            (λ r h p. seed_grid_keeps es types e r.kind mine (h p)) types
            (seed_balances-Covers e types balances),
        seed_grid-Covers es types mine,
      )

  seed_balances-IsWithin :
      (e : ℕ) (rs : List TypeRow) (balances : List LeaveBalance)
      → All IsWithin balances
      → All IsWithin (seed_balances e rs year month balances)
  unfolding seed_balances
  seed_balances-IsWithin e [] balances h = h
  seed_balances-IsWithin e (r ∷ rs) balances h = seed_balances-IsWithin e rs _ (
      if_both (All IsWithin) r.kind.is_paid _ balances
        (λ y. ensure-IsWithin e r.kind year month balances h) (λ n. h))

  seed_grid-IsWithin :
      (es : List ℕ) (types : List TypeRow) (balances : List LeaveBalance)
      → All IsWithin balances
      → All IsWithin (seed_grid es types year month balances)
  unfolding seed_grid
  seed_grid-IsWithin [] types balances h = h
  seed_grid-IsWithin (e ∷ es) types balances h =
      seed_grid-IsWithin es types _ (seed_balances-IsWithin e types balances h)

-- Listing the balances leaves every listed employee with a balance of the year for every paid type of
-- the company that is active and not deleted, and keeps the days used within the days accrued.
pub list_balances-Covers :
    (company : ℕ) (employees : List ℕ) (rows : List TypeRow) (year : Text) (month : ℕ)
    (balances : List LeaveBalance)
    → All IsWithin balances
    → let after = list_balances company employees rows year month balances in
      All (λ e. All (Covers year (some month) after e) (list_types company true rows)) employees
      × All IsWithin after
unfolding list_balances
list_balances-Covers company employees rows year month balances h = (
  seed_grid-Covers year (some month) employees (list_types company true rows) balances,
  seed_grid-IsWithin year (some month) employees (list_types company true rows) balances h,
)
