-- ===== src/Timesheet/Import.antt =====
-- app/services/payroll/timesheet_service.py (import_attendance): a file of attendance laid over the
-- timesheets of a cycle. What Python's `date.fromisoformat` and `Decimal` make of a text are
-- parameters; hours have two decimal places. A sheet is found by its employee; the state is the list
-- of the cycle's sheets. A file of which no row is applied is not committed.
use croar_backend_new.Prelude.{
  ℕ, suc, ◌+◌, ◌-◌, ◌*◌, Bool, true, false, not, ◌&&◌, ◌||◌, Option, none, some, List, [], ◌∷◌,
  contains, update_where, ◌==◌, ltb, if◌then◌else◌, is_some,
}
use croar_backend_new.Prelude.Int.{ℤ, pos, negsuc}
use croar_backend_new.Text.{Text, codes, strip, upper, lookup_text}
use croar_backend_new.Text.Numbers.{read_int, part, after_colon}
use croar_backend_new.Http.{Outcome, ok, not_found, raise_if}
use croar_backend_new.Money.{half_even}
use croar_backend_new.Timesheet.{
  DayStatus, present, wfh, half_day, unpaid_leave, Timesheet, TimesheetEntry, non_working,
  leave_locked, editable_state, recompute_aggregates,
}
use croar_backend_new.Timesheet.Edits.{on_date}

abbrev pub import_status : List (Text × DayStatus)
import_status =
    (codes "PRESENT", present)
    ∷ (codes "P", present)
    ∷ (codes "WFH", wfh)
    ∷ (codes "WORK_FROM_HOME", wfh)
    ∷ (codes "HALF_DAY", half_day)
    ∷ (codes "HALF", half_day)
    ∷ (codes "ABSENT", unpaid_leave)
    ∷ (codes "A", unpaid_leave)
    ∷ (codes "LOP", unpaid_leave)
    ∷ []

abbrev clock_time : Option ℕ → Option ℕ → Option ℕ
clock_time (some h) (some m) = if ltb h 24 && ltb m 60 then some (h * 60 + m) else none
clock_time _ _ = none

-- Exactly two parts.
abbrev second_part : Option Text → Option ℕ
second_part none = none
second_part (some t) = elim (is_some (after_colon t)) [ true ↦ none | false ↦ read_int t ]

unfoldable pub parse_hhmm : Text → Option ℕ
parse_hhmm t = clock_time (read_int (part t)) (second_part (after_colon t))

pub record ImportRow : Type 0 where
  pub employee_code : Text
  pub employee_id : Text
  pub date : Text
  pub status : Text
  pub check_in : Text
  pub check_out : Text
  pub hours : Text

abbrev pub is_empty : Text → Bool
is_empty [] = true
is_empty (c ∷ t) = false

abbrev pub key_of : ImportRow → Text
key_of r = strip (if is_empty r.employee_code then r.employee_id else r.employee_code)

-- `by_key.get(key) or by_key.get(key.upper())`
abbrev pub or_upper : Option ℕ → Option ℕ → Option ℕ
or_upper none e = e
or_upper (some a) e = some a

-- A row either applies to the entry, or is skipped with the entry as it then is.
pub record Result : Type 0 where
  pub applied : Bool
  pub entry : TimesheetEntry

abbrev pub skipped : TimesheetEntry → Result
skipped e = record { applied = false; entry = e }

abbrev with_hours : ℕ → TimesheetEntry → Result
with_hours h e = record { applied = true; entry = record e { hours = some h } }

abbrev minutes_between : Option ℕ → Option ℕ → Option ℕ
minutes_between (some from) (some to) = if ltb from to then some (to - from) else none
minutes_between _ _ = none

abbrev punched_hours : Option ℕ → TimesheetEntry → Result
punched_hours none e = skipped e
punched_hours (some mins) e = with_hours (half_even (mins * 100) 60) e

abbrev given_hours : Option ℤ → TimesheetEntry → Result
given_hours none e = skipped e
given_hours (some (negsuc n)) e = skipped e
given_hours (some (pos n)) e = if ltb 2400 n then skipped e else with_hours n e

pub record Import : Type 0 where
  pub sheets : List Timesheet
  pub touched : List ℕ
  pub updated : ℕ
  pub skips : ℕ

abbrev pub row_done : ℕ → Bool × List Timesheet → Import → Import
row_done employee result i =
    if result.0
    then record i { sheets = result.1; touched = employee ∷ i.touched; updated = suc i.updated }
    else record i { sheets = result.1; skips = suc i.skips }

module _ (fromisoformat : Text → Option ℕ) (decimal_of : Text → Option ℤ) where
  -- The hours, once the status is set.
  abbrev pub set_hours : ImportRow → TimesheetEntry → Result
  set_hours r e =
      if not (is_empty (strip r.check_in)) && not (is_empty (strip r.check_out))
      then punched_hours
          (minutes_between (parse_hhmm (strip r.check_in)) (parse_hhmm (strip r.check_out))) e
      else if not (is_empty (strip r.hours))
      then given_hours (decimal_of (strip r.hours)) e
      else record { applied = true; entry = e }

  abbrev pub with_mapped : Option DayStatus → ImportRow → TimesheetEntry → Result
  with_mapped none r e = skipped e
  with_mapped (some s) r e = set_hours r (record e { day_status = s })

  unfoldable pub import_entry : ImportRow → TimesheetEntry → Result
  import_entry r e =
      if non_working e.day_status
      then skipped e
      else if leave_locked e.day_status
      then skipped e
      else if not (is_empty (strip r.status))
      then with_mapped (lookup_text (upper (strip r.status)) import_status) r e
      else if not (is_empty (strip r.check_in)) || not (is_empty (strip r.check_out))
      then set_hours r (record e { day_status = present })
      else set_hours r e

  -- The entry of the row's date on the sheet, where there is one.
  abbrev pub import_entries :
      ImportRow → Option ℕ → List TimesheetEntry → Bool × List TimesheetEntry
  import_entries r none es = (false, es)
  import_entries r (some d) [] = (false, [])
  import_entries r (some d) (e ∷ es) =
      let rest = import_entries r (some d) es in
      if on_date d e
      then ((import_entry r e).applied, (import_entry r e).entry ∷ es)
      else (rest.0, e ∷ rest.1)

  unfoldable pub import_sheet : ImportRow → Timesheet → Bool × Timesheet
  import_sheet r ts =
      if editable_state ts.status
      then (let result = import_entries r (fromisoformat (strip r.date)) ts.entries in
          (result.0, record ts { entries = result.1 }))
      else (false, ts)

  -- The first sheet of the employee.
  abbrev pub import_to : ImportRow → ℕ → List Timesheet → Bool × List Timesheet
  import_to r employee [] = (false, [])
  import_to r employee (ts ∷ sheets) =
      let rest = import_to r employee sheets in
      if ts.employee == employee
      then ((import_sheet r ts).0, (import_sheet r ts).1 ∷ sheets)
      else (rest.0, ts ∷ rest.1)

  abbrev pub row_of : ImportRow → Option ℕ → Import → Import
  row_of r none i = record i { skips = suc i.skips }
  row_of r (some employee) i = row_done employee (import_to r employee i.sheets) i

  -- One row, with the employees by their keys.
  abbrev pub import_row : List (Text × ℕ) → ImportRow → Import → Import
  import_row by_key r i =
      if is_empty (key_of r)
      then record i { skips = suc i.skips }
      else row_of r
          (or_upper (lookup_text (key_of r) by_key) (lookup_text (upper (key_of r)) by_key)) i

  unfoldable pub import_rows : List (Text × ℕ) → List ImportRow → Import → Import
  import_rows by_key [] i = i
  import_rows by_key (r ∷ rows) i = import_rows by_key rows (import_row by_key r i)

  -- The sheets that a row was applied to are recomputed. `known` says that the cycle is found.
  unfoldable pub import_attendance :
      Bool → List (Text × ℕ) → List ImportRow → List Timesheet → Outcome (List Timesheet)
  import_attendance known by_key rows table =
      let i =
        import_rows by_key rows (record { sheets = table; touched = []; updated = 0; skips = 0 }) in
      raise_if (not known) not_found (
        ok (
          if i.updated == 0
          then table
          else update_where (λ ts. contains ts.employee i.touched) recompute_aggregates i.sheets))
