-- ===== src/Timesheet/Generated.antt =====
-- Which sheets the generation for a cycle makes.
use croar_backend_new.Prelude.{
  ℕ, ◌≡◌, refl, ap, Bool, true, false, ◌&&◌, ◌||◌, inl, inr, Option, none, some, List, [], ◌∷◌, All,
  Bool-cases, contains, any, ◌==◌, if◌then◌else◌, arith, All-map,
}
use croar_backend_new.Http.{ok, raise_if_ok, found_or_ok, then_ok_ok, ok-inj}
use croar_backend_new.Calendar.{WorkCalendarConfig, Holiday}
use croar_backend_new.Leave.{Db}
use croar_backend_new.Timesheet.{TimesheetMode, generate, recompute_aggregates}
use croar_backend_new.Timesheet.Batch.{
  SheetRow, PayrollCycle, Payee, Batch, load_cycle, in_cycle, existing_ids, generate_loop,
  count_existing, or_skip, sheet_for, is_taken, insert_rows, generate_for_cycle,
}

-- A sheet for each cycle and employee.
abbrev pub AreUnique : List SheetRow → Type 0
AreUnique [] = Unit
AreUnique (r ∷ rs) = (any (is_taken r) rs ≡ false) × AreUnique rs

-- Who has a salary structure has a sheet.
abbrev pub IsCovered : List ℕ → Payee → Type 0
IsCovered ids p = (mode : TimesheetMode) → p.structure ≡ some mode → contains p.employee ids ≡ true

insert_rows-AreUnique :
    (rows table t : List SheetRow) → insert_rows rows table ≡ ok t → AreUnique table → AreUnique t
unfolding insert_rows
insert_rows-AreUnique [] table t e h = rw (← ok-inj table t e) h
insert_rows-AreUnique (r ∷ rows) table t e h =
    let k = raise_if_ok (any (is_taken r) table) _ _ t e in
    insert_rows-AreUnique rows (r ∷ table) t k.1 (k.0, h)

module _ (company cycle id : ℕ) where
  abbrev known : List SheetRow → Bool
  known rows = contains id (existing_ids company cycle rows)

  abbrev names : SheetRow → Bool
  names r = in_cycle company cycle r && id == r.sheet.employee

  known_step : (r : SheetRow) (rows : List SheetRow) → known (r ∷ rows) ≡ (names r || known rows)
  known_step r rows = elim (Bool-cases (in_cycle company cycle r)) [
    | inl y ↦ rw y refl
    | inr n ↦ rw n refl
  ]

  swap : (a b c : Bool) → (b || (a || c)) ≡ true → ((a || b) || c) ≡ true
  swap a b c h = ground arith

  or_none : (b : Bool) → (b || false) ≡ true → b ≡ true
  or_none b h = ground arith

  insert_rows-known :
      (rows table t : List SheetRow)
      → insert_rows rows table ≡ ok t
      → (known table || known rows) ≡ true
      → known t ≡ true
  unfolding insert_rows
  insert_rows-known [] table t e h = rw (← ok-inj table t e) (or_none (known table) h)
  insert_rows-known (r ∷ rows) table t e h =
      insert_rows-known rows (r ∷ table) t (raise_if_ok (any (is_taken r) table) _ _ t e).1 (
        rw (known_step r table)
          (swap (names r) (known table) (known rows) (rw (← known_step r rows) h)))

module _ (cfg : WorkCalendarConfig) (holidays : List Holiday) (db : Db) (fresh : ℕ → ℕ)
    (company cycle : ℕ) (c : PayrollCycle) (ids : List ℕ) where
  -- The sheets there were and the rows of the loop cover an employee.
  abbrev Reaches : List SheetRow → Payee → Type 0
  Reaches rows p =
      (mode : TimesheetMode)
      → p.structure ≡ some mode
      → (contains p.employee ids || known company cycle p.employee rows) ≡ true

  abbrev made : ℕ → TimesheetMode → SheetRow
  made employee mode = sheet_for cfg holidays db fresh company cycle c employee mode

  made-names :
      (employee : ℕ) (mode : TimesheetMode)
      → names company cycle employee (made employee mode) ≡ true
  unfolding sheet_for generate recompute_aggregates
  made-names employee mode = ground arith

  covered_by :
      (employee : ℕ) (mode : TimesheetMode) (rows : List SheetRow)
      → (contains employee ids || known company cycle employee (made employee mode ∷ rows)) ≡ true
  covered_by employee mode rows =
      rw (known_step company cycle employee (made employee mode) rows, made-names employee mode)
        (or_true (contains employee ids))
    where
      or_true : (a : Bool) → (a || true) ≡ true
      or_true true = refl
      or_true false = refl

  weaken : (r : SheetRow) (rows : List SheetRow) (p : Payee) → Reaches rows p → Reaches (r ∷ rows) p
  weaken r rows p h mode e =
      rw (known_step company cycle p.employee r rows)
        (or_more (contains p.employee ids) (names company cycle p.employee r) _ (h mode e))
    where
      or_more : (a b d : Bool) → (a || d) ≡ true → (a || (b || d)) ≡ true
      or_more a b d k = ground arith

  loop-Reaches :
      (ps : List Payee)
      → All (Reaches (generate_loop cfg holidays db fresh company cycle c ids ps).rows) ps
  unfolding generate_loop
  loop-Reaches [] = tt
  loop-Reaches (p ∷ ps) =
      counted (generate_loop cfg holidays db fresh company cycle c ids ps) (contains p.employee ids)
        refl (loop-Reaches ps)
    where
      skipped :
          (rest : Batch) (o : Option TimesheetMode)
          → p.structure ≡ o
          → All (Reaches rest.rows) ps
          → All
              (Reaches (or_skip cfg holidays db fresh company cycle c p.employee o rest).rows)
              (p ∷ ps)
      skipped rest none e h = (λ mode q. let k : none ≡ some mode = rw (← e) q in absurd cc, h)
      skipped rest (some m) e h = (
        λ mode q. covered_by p.employee m rest.rows,
        All-map (Reaches rest.rows) (Reaches (made p.employee m ∷ rest.rows))
            (weaken (made p.employee m) rest.rows) ps h,
      )

      counted :
          (rest : Batch) (known' : Bool)
          → contains p.employee ids ≡ known'
          → All (Reaches rest.rows) ps
          → All
              (Reaches
                (if known'
                  then count_existing rest
                  else or_skip cfg holidays db fresh company cycle c p.employee p.structure
                      rest).rows)
              (p ∷ ps)
      counted rest true y h = (λ mode e. rw y refl, h)
      counted rest false n h = skipped rest p.structure refl h

  -- Where all are covered, the loop makes nothing.
  loop_again :
      (ps : List Payee)
      → All (IsCovered ids) ps
      → let b = generate_loop cfg holidays db fresh company cycle c ids ps in
        (b.rows ≡ []) × (b.created ≡ 0)
  unfolding generate_loop
  loop_again [] h = (refl, refl)
  loop_again (p ∷ ps) (here, h) = elim (Bool-cases (contains p.employee ids)) [
    | inl y ↦ rw y (loop_again ps h)
    | inr n ↦ rw n (
        skipped (generate_loop cfg holidays db fresh company cycle c ids ps) p.structure n refl
          (loop_again ps h))
  ]
    where
      skipped :
          (rest : Batch) (o : Option TimesheetMode)
          → contains p.employee ids ≡ false
          → p.structure ≡ o
          → (rest.rows ≡ []) × (rest.created ≡ 0)
          → let b = or_skip cfg holidays db fresh company cycle c p.employee o rest in
            (b.rows ≡ []) × (b.created ≡ 0)
      skipped rest none n e k = k
      skipped rest (some m) n e k = let y = here m e in absurd cc

-- A generation that succeeds keeps one sheet for a cycle and an employee, and leaves every listed
-- employee who has an active salary structure with a sheet of the cycle; it is idempotent: generating
-- again, with whatever calendar and leave there is then, creates nothing and leaves the sheets as
-- they are.
pub generate_for_cycle-again :
    (cfg cfg' : WorkCalendarConfig) (holidays holidays' : List Holiday) (db db' : Db)
    (fresh fresh' : ℕ → ℕ) (cycles : List PayrollCycle) (employees : List Payee) (company cycle : ℕ)
    (table t : List SheetRow) (b : Batch)
    → generate_for_cycle cfg holidays db fresh cycles employees company cycle table ≡ ok (b, t)
    → AreUnique table
    → AreUnique t
      × All (IsCovered (existing_ids company cycle t)) employees
      × ((b' : Batch) × (generate_for_cycle cfg' holidays' db' fresh' cycles employees company cycle
              t
            ≡ ok (b', t))
          × (b'.created ≡ 0))
unfolding generate_for_cycle insert_rows
generate_for_cycle-again cfg cfg' holidays holidays' db db' fresh fresh' cycles employees company
      cycle table t b e u =
    let ids = existing_ids company cycle table in
    let c = found_or_ok (load_cycle cycle company cycles) _ _ (b, t) e in
    let made' = generate_loop cfg holidays db fresh company cycle c.0 ids employees in
    let i = then_ok_ok (insert_rows made'.rows table) _ (b, t) c.2 in
    let pair = ok-inj _ (b, t) i.2 in
    let same : i.0 ≡ t = ap (λ (x : Batch × List SheetRow). x.1) pair in
    let inserted : insert_rows made'.rows table ≡ ok t = rw (← same) i.1 in
    let covered : All (IsCovered (existing_ids company cycle t)) employees =
      All-map (Reaches cfg holidays db fresh company cycle c.0 ids made'.rows)
        (IsCovered (existing_ids company cycle t))
        (λ p h mode q.
          insert_rows-known company cycle p.employee made'.rows table t inserted (h mode q))
        employees (loop-Reaches cfg holidays db fresh company cycle c.0 ids employees) in
    let k =
      loop_again cfg' holidays' db' fresh' company cycle c.0 (existing_ids company cycle t)
        employees covered in
    (
      insert_rows-AreUnique made'.rows table t inserted u,
      covered,
      (
        generate_loop cfg' holidays' db' fresh' company cycle c.0 (existing_ids company cycle t)
            employees,
        rw (c.1, k.0) refl,
        k.1,
      ),
    )
