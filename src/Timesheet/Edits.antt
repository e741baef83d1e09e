-- ===== src/Timesheet/Edits.antt =====
-- app/services/payroll/timesheet_service.py: the edits of entries, by HR and by the employee.
use croar_backend_new.Prelude.{
  ℕ, Bool, false, not, Option, none, some, List, [], ◌∷◌, update_first, ◌==◌, ltb, if◌then◌else◌,
}
use croar_backend_new.Http.{
  Outcome, ok, not_found, conflict, unprocessable, raise_if, found_or, then_ok,
}
use croar_backend_new.Timesheet.Hours.{in_units, stored}
use croar_backend_new.Timesheet.{
  DayStatus, PayrollCycleStatus, Timesheet, TimesheetEntry, editable_cycle, editable_state,
  leave_locked, non_working, recompute_aggregates, self_markable,
}

-- An edit of one day, with the hours in units.
pub record EntryIn : Type 0 where
  pub entry_date : ℕ
  pub day_status : Option DayStatus
  pub hours : Option ℕ

abbrev pub or_else {ℓ} : {A : Type ℓ} → Option A → A → A
or_else none a = a
or_else (some b) a = b

abbrev pub or_keep {ℓ} : {A : Type ℓ} → Option A → Option A → Option A
or_keep none a = a
or_keep (some b) a = some b

unfoldable pub apply_item : EntryIn → TimesheetEntry → TimesheetEntry
apply_item i e = record e {
  day_status = or_else i.day_status e.day_status;
  hours = or_keep i.hours e.hours;
}

abbrev pub on_date : ℕ → TimesheetEntry → Bool
on_date d e = e.entry_date == d

unfoldable pub apply_items : List EntryIn → List TimesheetEntry → List TimesheetEntry
apply_items [] entries = entries
apply_items (i ∷ items) entries =
    apply_items items (update_first (on_date i.entry_date) (apply_item i) entries)

unfoldable pub bulk_update_entries :
    ℕ → (ℕ → ℕ) → Option Timesheet → Option PayrollCycleStatus → List EntryIn → Outcome Timesheet
bulk_update_entries units column found cycle items = found_or found not_found (λ ts.
    raise_if (not (editable_state ts.status)) conflict (
      found_or cycle not_found (λ c. raise_if (not (editable_cycle c)) conflict (
        ok (
          stored column (
            recompute_aggregates
              (record ts { entries = apply_items items (in_units units ts.entries) })))))))

-- The checks on an entry that an employee marks, and the edit.
abbrev pub bad_mark : Option DayStatus → Bool
bad_mark none = false
bad_mark (some s) = not (self_markable s)

unfoldable pub mark_entry : ℕ → EntryIn → TimesheetEntry → Outcome TimesheetEntry
mark_entry today i e = raise_if (ltb today e.entry_date) unprocessable (
    if non_working e.day_status
    then ok e
    else raise_if (leave_locked e.day_status) conflict
        (raise_if (bad_mark i.day_status) unprocessable (ok (apply_item i e))))

-- The entry of the item's date, where there is one.
unfoldable pub mark_item : ℕ → EntryIn → List TimesheetEntry → Outcome (List TimesheetEntry)
mark_item today i [] = ok []
mark_item today i (e ∷ es) =
    if on_date i.entry_date e
    then then_ok (mark_entry today i e) (λ e'. ok (e' ∷ es))
    else then_ok (mark_item today i es) (λ es'. ok (e ∷ es'))

unfoldable pub mark_items : ℕ → List EntryIn → List TimesheetEntry → Outcome (List TimesheetEntry)
mark_items today [] entries = ok entries
mark_items today (i ∷ items) entries =
    then_ok (mark_item today i entries) (λ entries'. mark_items today items entries')

unfoldable pub self_mark_entries :
    ℕ
    → (ℕ → ℕ)
    → ℕ
    → ℕ
    → Option Timesheet
    → Option PayrollCycleStatus
    → List EntryIn
    → Outcome Timesheet
self_mark_entries units column today employee found cycle items = found_or found not_found (λ ts.
    raise_if (not (ts.employee == employee)) not_found (
      raise_if (not (editable_state ts.status)) conflict (
        found_or cycle not_found (λ c. raise_if (not (editable_cycle c)) conflict (
          then_ok (mark_items today items (in_units units ts.entries)) (λ entries.
            ok (stored column (recompute_aggregates (record ts { entries = entries })))))))))
