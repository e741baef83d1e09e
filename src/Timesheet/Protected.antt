-- ===== src/Timesheet/Protected.antt =====
-- What an import of attendance leaves alone.
use croar_backend_new.Prelude.{
  ℕ, ◌≡◌, refl, ◌∙◌, ap, Bool, true, false, not, ◌||◌, Option, none, some, List, [], ◌∷◌, inl, inr,
  Bool-cases, update_where, contains, ◌==◌, arith, if◌then◌else◌,
}
use croar_backend_new.Text.{Text, strip}
use croar_backend_new.Prelude.Int.{ℤ}
use croar_backend_new.Http.{ok, raise_if_ok, ok-inj}
use croar_backend_new.Timesheet.{
  Timesheet, TimesheetEntry, non_working, leave_locked, editable_state, recompute_aggregates,
}
use croar_backend_new.Timesheet.Edits.{on_date}
use croar_backend_new.Timesheet.Import.{
  ImportRow, Import, is_empty, key_of, import_entry, import_entries, import_sheet, import_to,
  row_of, import_row, import_rows, import_attendance,
}

abbrev pub is_protected : TimesheetEntry → Bool
is_protected e = non_working e.day_status || leave_locked e.day_status

-- The same entries, but for those that are not protected.
abbrev pub Kept : List TimesheetEntry → List TimesheetEntry → Type 0
Kept [] [] = Unit
Kept [] (e ∷ es) = ⊥
Kept (e ∷ es) [] = ⊥
Kept (e ∷ es) (e' ∷ es') = (is_protected e ≡ true → e' ≡ e) × Kept es es'

-- The same status, and the same entries where the sheet cannot be edited.
abbrev pub SheetKept : Timesheet → Timesheet → Type 0
SheetKept ts ts' =
    (ts'.status ≡ ts.status)
    × (editable_state ts.status ≡ false → ts'.entries ≡ ts.entries)
    × Kept ts.entries ts'.entries

abbrev pub AllKept : List Timesheet → List Timesheet → Type 0
AllKept [] [] = Unit
AllKept [] (t ∷ ts) = ⊥
AllKept (t ∷ ts) [] = ⊥
AllKept (t ∷ ts) (t' ∷ ts') = SheetKept t t' × AllKept ts ts'

Kept-refl : (es : List TimesheetEntry) → Kept es es
Kept-refl [] = tt
Kept-refl (e ∷ es) = (λ _. refl, Kept-refl es)

Kept-trans : (a b c : List TimesheetEntry) → Kept a b → Kept b c → Kept a c
Kept-trans [] [] [] h k = tt
Kept-trans [] [] (z ∷ c) h k = k
Kept-trans [] (y ∷ b) c h k = absurd h
Kept-trans (x ∷ a) [] c h k = absurd h
Kept-trans (x ∷ a) (y ∷ b) [] h k = absurd k
Kept-trans (x ∷ a) (y ∷ b) (z ∷ c) (h, hs) (k, ks) =
    (λ p. k (ap is_protected (h p) ∙ p) ∙ h p, Kept-trans a b c hs ks)

SheetKept-refl : (t : Timesheet) → SheetKept t t
SheetKept-refl t = (refl, λ _. refl, Kept-refl t.entries)

SheetKept-trans : (t u v : Timesheet) → SheetKept t u → SheetKept u v → SheetKept t v
SheetKept-trans t u v (s, f, k) (s', f', k') =
    (s' ∙ s, λ e. f' (ap editable_state s ∙ e) ∙ f e, Kept-trans t.entries u.entries v.entries k k')

AllKept-refl : (ts : List Timesheet) → AllKept ts ts
AllKept-refl [] = tt
AllKept-refl (t ∷ ts) = (SheetKept-refl t, AllKept-refl ts)

AllKept-trans : (a b c : List Timesheet) → AllKept a b → AllKept b c → AllKept a c
AllKept-trans [] [] [] h k = tt
AllKept-trans [] [] (z ∷ c) h k = k
AllKept-trans [] (y ∷ b) c h k = absurd h
AllKept-trans (x ∷ a) [] c h k = absurd h
AllKept-trans (x ∷ a) (y ∷ b) [] h k = absurd k
AllKept-trans (x ∷ a) (y ∷ b) (z ∷ c) (h, hs) (k, ks) =
    (SheetKept-trans x y z h k, AllKept-trans a b c hs ks)

module _ (fromisoformat : Text → Option ℕ) (decimal_of : Text → Option ℤ) where
  import_entry-protected :
      (r : ImportRow) (e : TimesheetEntry)
      → is_protected e ≡ true
      → (import_entry fromisoformat decimal_of r e).entry ≡ e
  unfolding import_entry
  import_entry-protected r e p = elim (Bool-cases (non_working e.day_status)) [
    | inl y ↦ rw y refl
    | inr n ↦ let l : leave_locked e.day_status ≡ true = ground (arith, n, p) in rw n (rw l refl)
  ]

  import_entries-Kept :
      (r : ImportRow) (d : Option ℕ) (es : List TimesheetEntry)
      → Kept es (import_entries fromisoformat decimal_of r d es).1
  import_entries-Kept r none es = Kept-refl es
  import_entries-Kept r (some d) [] = tt
  import_entries-Kept r (some d) (e ∷ es) = elim (Bool-cases (on_date d e)) [
    | inl y ↦ rw y (import_entry-protected r e, Kept-refl es)
    | inr n ↦ rw n (λ _. refl, import_entries-Kept r (some d) es)
  ]

  import_sheet-SheetKept :
      (r : ImportRow) (t : Timesheet) → SheetKept t (import_sheet fromisoformat decimal_of r t).1
  unfolding import_sheet
  import_sheet-SheetKept r t = elim (Bool-cases (editable_state t.status)) [
    | inl y ↦ rw y (
      refl,
      λ n. absurd (never n),
      import_entries-Kept r (fromisoformat (strip r.date)) t.entries,
    )
    | inr n ↦ rw n (refl, λ _. refl, Kept-refl t.entries)
  ]
    where
      never : true ≡ false → ⊥
      never n = cc

  import_to-AllKept :
      (r : ImportRow) (employee : ℕ) (ts : List Timesheet)
      → AllKept ts (import_to fromisoformat decimal_of r employee ts).1
  import_to-AllKept r employee [] = tt
  import_to-AllKept r employee (t ∷ ts) = elim (Bool-cases (t.employee == employee)) [
    | inl y ↦ rw y (import_sheet-SheetKept r t, AllKept-refl ts)
    | inr n ↦ rw n (SheetKept-refl t, import_to-AllKept r employee ts)
  ]

  row_of-AllKept :
      (r : ImportRow) (employee : Option ℕ) (i : Import)
      → AllKept i.sheets (row_of fromisoformat decimal_of r employee i).sheets
  row_of-AllKept r none i = AllKept-refl i.sheets
  row_of-AllKept r (some e) i =
      elim (Bool-cases (import_to fromisoformat decimal_of r e i.sheets).0) [
        | inl y ↦ rw y (import_to-AllKept r e i.sheets)
        | inr n ↦ rw n (import_to-AllKept r e i.sheets)
      ]

  import_row-AllKept :
      (by_key : List (Text × ℕ)) (r : ImportRow) (i : Import)
      → AllKept i.sheets (import_row fromisoformat decimal_of by_key r i).sheets
  import_row-AllKept by_key r i = elim (Bool-cases (is_empty (key_of r))) [
    | inl y ↦ rw y (AllKept-refl i.sheets)
    | inr n ↦ rw n (row_of-AllKept r _ i)
  ]

  import_rows-AllKept :
      (by_key : List (Text × ℕ)) (rows : List ImportRow) (i : Import)
      → AllKept i.sheets (import_rows fromisoformat decimal_of by_key rows i).sheets
  unfolding import_rows
  import_rows-AllKept by_key [] i = AllKept-refl i.sheets
  import_rows-AllKept by_key (r ∷ rows) i =
      let next = import_row fromisoformat decimal_of by_key r i in
      AllKept-trans i.sheets next.sheets _ (import_row-AllKept by_key r i)
        (import_rows-AllKept by_key rows next)

recompute-AllKept :
    (p : Timesheet → Bool) (ts : List Timesheet)
    → AllKept ts (update_where p recompute_aggregates ts)
unfolding recompute_aggregates
recompute-AllKept p [] = tt
recompute-AllKept p (t ∷ ts) = elim (Bool-cases (p t)) [
  | inl y ↦ rw y ((refl, λ _. refl, Kept-refl t.entries), recompute-AllKept p ts)
  | inr n ↦ rw n (SheetKept-refl t, recompute-AllKept p ts)
]

-- Whatever a file holds, and whatever dates and hours its texts are read as, an import that succeeds
-- keeps the sheets in their order with their statuses; it keeps every entry of a sheet that cannot be
-- edited, and on the others every entry that is a weekly off, a holiday or on leave.
pub import_attendance-AllKept :
    (fromisoformat : Text → Option ℕ) (decimal_of : Text → Option ℤ) (known : Bool)
    (by_key : List (Text × ℕ)) (rows : List ImportRow) (table table' : List Timesheet)
    → import_attendance fromisoformat decimal_of known by_key rows table ≡ ok table'
    → AllKept table table'
unfolding import_attendance
import_attendance-AllKept fromisoformat decimal_of known by_key rows table table' h =
    let i0 : Import = record { sheets = table; touched = []; updated = 0; skips = 0 } in
    let i = import_rows fromisoformat decimal_of by_key rows i0 in
    let k = raise_if_ok (not known) _ _ table' h in
    rw (← ok-inj _ table' k.1)
      (branch i (i.updated == 0) (import_rows-AllKept fromisoformat decimal_of by_key rows i0))
  where
    branch :
        (i : Import) (b : Bool)
        → AllKept table i.sheets
        → AllKept table (
            if b
            then table
            else update_where (λ ts. contains ts.employee i.touched) recompute_aggregates i.sheets)
    branch i true all = AllKept-refl table
    branch i false all = AllKept-trans table i.sheets _ all (recompute-AllKept _ i.sheets)
