-- ===== src/Timesheet/ImportExamples.antt =====
-- A file for two sheets of one day.
use croar_backend_new.Prelude.{ℕ, ◌≡◌, refl, true, Option, none, List, [], ◌∷◌, map}
use croar_backend_new.Prelude.Int.{ℤ, ◌+ℤ◌, ◌-ℤ◌}
use croar_backend_new.Text.{Text, codes, lookup_text}
use croar_backend_new.Http.{Outcome, ok, raise, then_ok}
use croar_backend_new.Money.{half_even}
use croar_backend_new.Timesheet.{
  Timesheet, TimesheetEntry, present, unpaid_leave, attendance, new_sheet, recompute_aggregates,
  sum_entries, add_day, add_hours,
}
use croar_backend_new.Timesheet.Import.{
  ImportRow, parse_hhmm, import_entry, import_sheet, import_rows, import_attendance,
}
use croar_backend_new.Timesheet.Protected.{AllKept, import_attendance-AllKept}

abbrev on : ℕ → TimesheetEntry
on date = record { entry_date = date; day_status = present; hours = none }

abbrev sheet : ℕ → Timesheet
sheet employee = new_sheet employee attendance (on 739_642 ∷ [])

abbrev sheets : List Timesheet
sheets = sheet 1 ∷ sheet 2 ∷ []

abbrev dates : Text → Option ℕ
dates t = lookup_text t ((codes "2026-01-26", 739_642) ∷ [])

abbrev no_decimal : Text → Option ℤ
no_decimal t = none

abbrev by_key : List (Text × ℕ)
by_key = (codes "E1", 1) ∷ (codes "E2", 2) ∷ []

abbrev row : Text → Text → Text → Text → ImportRow
row code status check_in check_out = record {
  employee_code = code;
  employee_id = [];
  date = codes "2026-01-26";
  status = status;
  check_in = check_in;
  check_out = check_out;
  hours = [];
}

abbrev import_all : List ImportRow → List Timesheet → Outcome (List Timesheet)
import_all rows table = import_attendance dates no_decimal true by_key rows table

program : Unit {0}
unfolding parse_hhmm import_entry import_sheet import_rows import_attendance recompute_aggregates
    sum_entries add_day add_hours half_even ◌+ℤ◌ ◌-ℤ◌
program = tt

punched :
    then_ok
      (import_all (row (codes "e1") [] (codes "09:00") (codes "17:20") ∷ []) sheets)
      (λ ts. ok (map (λ t. t.total_hours) ts))
    ≡ ok (833 ∷ 0 ∷ [])
unfolding program
punched = refl

-- The second row sets the status, is skipped for its times, and its sheet is not recomputed: a day of
-- unpaid leave without loss of pay.
abbrev half_applied : Outcome (List Timesheet)
half_applied =
    import_all
      (row (codes "E1") (codes "P") [] []
        ∷ row (codes "E2") (codes "ABSENT") (codes "9") (codes "10")
        ∷ [])
      sheets

stale :
    (then_ok half_applied (λ ts. ok (map (λ t. map (λ e. e.day_status) t.entries) ts))
      ≡ ok ((present ∷ []) ∷ (unpaid_leave ∷ []) ∷ []))
    × (then_ok half_applied (λ ts. ok (map (λ t. t.lop_days) ts)) ≡ ok (0 ∷ 0 ∷ []))
unfolding program
stale = (refl, refl)

-- A day that a file marks absent cannot be corrected by another file.
uncorrected :
    then_ok
      (then_ok
        (import_all (row (codes "E1") (codes "ABSENT") [] [] ∷ []) sheets)
        (import_all (row (codes "E1") (codes "PRESENT") [] [] ∷ [])))
      (λ ts. ok (map (λ t. t.lop_days) ts))
    ≡ ok (100 ∷ 0 ∷ [])
unfolding program
uncorrected = refl

abbrev or_sheets : Outcome (List Timesheet) → List Timesheet
or_sheets (ok ts) = ts
or_sheets (raise e) = []

import_attendance-AllKept_example : AllKept sheets (or_sheets half_applied)
unfolding program
import_attendance-AllKept_example =
    import_attendance-AllKept dates no_decimal true by_key
      (row (codes "E1") (codes "P") [] []
        ∷ row (codes "E2") (codes "ABSENT") (codes "9") (codes "10")
        ∷ [])
      sheets (or_sheets half_applied) refl
