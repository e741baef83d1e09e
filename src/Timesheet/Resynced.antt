-- ===== src/Timesheet/Resynced.antt =====
-- What a resync of an employee's sheets does to the table of sheets.
use croar_backend_new.Prelude.{
  ℕ, suc, ◌≡◌, refl, sym, Bool, true, false, inl, inr, Option, none, some, List, [], ◌∷◌, map,
  Bool-cases, find_first, update_first, ◌∙◌,
}
use croar_backend_new.Http.{Outcome, ok, raise}
use croar_backend_new.Leave.{Db}
use croar_backend_new.Timesheet.{
  Timesheet, DayStatus, PayrollCycleStatus, editable_state, recompute_aggregates,
}
use croar_backend_new.Timesheet.Status.{overlay, resync_leave}
use croar_backend_new.Timesheet.Totals.{IsConsistent, recompute-IsConsistent}
use croar_backend_new.Timesheet.Lifecycle.{resync_leave_ok}
use croar_backend_new.Timesheet.Batch.{
  SheetRow, PayrollCycle, Progress, is_sheet, with_sheet, sheet_of, leave_in, status_in, resync_row,
  write_sheet, resync_then, resync_loop, resync_leave_for_employee_period,
}

-- A sheet that is not open to edits stays as it is, the others stay consistent and keep their status.
pub record IsKept (r t : SheetRow) : Type 0 where
  pub status : t.sheet.status ≡ r.sheet.status
  pub frozen : editable_state r.sheet.status ≡ false → t ≡ r
  pub consistent : IsConsistent r.sheet → IsConsistent t.sheet

IsKept-refl : (r : SheetRow) → IsKept r r
IsKept-refl r = record { status = refl; frozen = λ h. refl; consistent = λ h. h }

IsKept-trans : (r s t : SheetRow) → IsKept r s → IsKept s t → IsKept r t
IsKept-trans r s t h k = record {
  status = k.status ∙ h.status;
  frozen = λ e. k.frozen (rw h.status e) ∙ h.frozen e;
  consistent = λ e. k.consistent (h.consistent e);
}

-- Row by row.
abbrev pub AllKept : List SheetRow → List SheetRow → Type 0
AllKept [] [] = Unit
AllKept [] (t ∷ ts) = ⊥
AllKept (r ∷ rs) [] = ⊥
AllKept (r ∷ rs) (t ∷ ts) = IsKept r t × AllKept rs ts

AllKept-refl : (rs : List SheetRow) → AllKept rs rs
AllKept-refl [] = tt
AllKept-refl (r ∷ rs) = (IsKept-refl r, AllKept-refl rs)

AllKept-trans : (rs ss ts : List SheetRow) → AllKept rs ss → AllKept ss ts → AllKept rs ts
AllKept-trans [] [] [] h k = tt
AllKept-trans [] [] (t ∷ ts) h k = k
AllKept-trans [] (s ∷ ss) ts h k = absurd h
AllKept-trans (r ∷ rs) [] ts h k = absurd h
AllKept-trans (r ∷ rs) (s ∷ ss) [] h k = absurd k
AllKept-trans (r ∷ rs) (s ∷ ss) (t ∷ ts) (h, hs) (k, ks) =
    (IsKept-trans r s t h k, AllKept-trans rs ss ts hs ks)

-- A change to the row that is found.
update_found :
    (p : SheetRow → Bool) (f : SheetRow → SheetRow) (rs : List SheetRow) (r : SheetRow)
    → find_first p rs ≡ some r
    → IsKept r (f r)
    → AllKept rs (update_first p f rs)
update_found p f [] r e h = tt
update_found p f (x ∷ rs) r e h = elim (Bool-cases (p x)) [
  | inl y ↦
      let q : some x ≡ some r = rw (← e) (rw y refl) in
      let q' : x ≡ r = cc in rw y (rw q' h, AllKept-refl rs)
  | inr n ↦ rw n (IsKept-refl x, update_found p f rs r (rw (← e) (rw n refl)) h)
]

module _ (cycles : List PayrollCycle) (db : Db) (company : ℕ) where
  -- The sheet that a resync writes.
  written :
      (leave : List (ℕ × DayStatus)) (cycle : Option PayrollCycleStatus) (r : SheetRow)
      (ts : Timesheet)
      → resync_leave leave (some r.sheet) cycle ≡ ok (some ts)
      → IsKept r (with_sheet ts r)
  unfolding recompute_aggregates
  written leave cycle r ts h =
      let k = resync_leave_ok leave cycle r.sheet ts h in
      elim k.1 [
        | inl a ↦ rw (← a) (record {
          status = refl;
          frozen = λ e. let c : true ≡ false = rw (← e) (sym k.0) in absurd cc;
          consistent = λ e.
              recompute-IsConsistent
                (record r.sheet { entries = map (overlay leave) r.sheet.entries });
        })
        | inr b ↦ rw (← b.1) (IsKept-refl r)
      ]

  row_written :
      (id : ℕ) (ts : Timesheet) (table : List SheetRow) (o : Option SheetRow)
      → find_first (is_sheet id company) table ≡ o
      → resync_leave (leave_in db o) (sheet_of o) (status_in cycles company o) ≡ ok (some ts)
      → AllKept table (write_sheet cycles db company id ts table)
  unfolding resync_leave
  row_written id ts table none e h = cc
  row_written id ts table (some r) e h =
      update_found (is_sheet id company) (with_sheet ts) table r e (written _ _ r ts h)

  then-AllKept :
      (rest : ℕ → List SheetRow → Progress)
      → ((updated : ℕ) (table : List SheetRow) → AllKept table (rest updated table).table)
      → (id updated : ℕ) (table : List SheetRow) (o : Outcome (Option Timesheet))
      → resync_row cycles db company id table ≡ o
      → AllKept table (resync_then cycles db company rest id updated table o).table
  unfolding resync_then resync_row
  then-AllKept rest ih id updated table (ok none) e = ih updated table
  then-AllKept rest ih id updated table (ok (some ts)) e =
      AllKept-trans table _ _ (row_written id ts table _ refl e) (ih (suc updated) _)
  then-AllKept rest ih id updated table (raise x) e = AllKept-refl table

  loop-AllKept :
      (ids : List ℕ) (updated : ℕ) (table : List SheetRow)
      → AllKept table (resync_loop cycles db company ids updated table).table
  unfolding resync_loop
  loop-AllKept [] updated table = AllKept-refl table
  loop-AllKept (id ∷ ids) updated table =
      then-AllKept (resync_loop cycles db company ids) (loop-AllKept ids) id updated table _ refl

-- A resync of the sheets of an employee, whether it goes through or fails midway, keeps the table of
-- sheets row by row: a submitted or approved sheet as it is, every sheet in its status, and the
-- aggregates of a consistent sheet consistent with its entries.
pub resync_leave_for_employee_period-AllKept :
    (cycles : List PayrollCycle) (db : Db) (company employee start last : ℕ) (table : List SheetRow)
    → AllKept table
        (resync_leave_for_employee_period cycles db company employee start last table).table
unfolding resync_leave_for_employee_period
resync_leave_for_employee_period-AllKept cycles db company employee start last table =
    loop-AllKept cycles db company _ 0 table
