-- ===== src/Timesheet/Hours.antt =====
-- app/services/payroll/timesheet_service.py: the hours that a request gives, which are decimals of any
-- length, and the two columns, of an entry and of a sheet, that round them apart. A request's hours are
-- in units, of which `units` make a hundredth; `column` is how the database rounds a number of units
-- to hundredths.
use croar_backend_new.Prelude.{
  ℕ, ◌+◌, ◌*◌, ◌≡◌, refl, ap, sym, ◌∙◌, Option, none, some, List, [], ◌∷◌, map,
}
use croar_backend_new.Timesheet.{DayStatus, TimesheetEntry, Timesheet}
use croar_backend_new.Timesheet.Totals.{scheduled_of, lop_of, half_of, sum_of, AreCounted}

abbrev pub each_hour : (ℕ → ℕ) → TimesheetEntry → TimesheetEntry
each_hour f e = record e { hours = option_map f e.hours }
  where
    option_map : (ℕ → ℕ) → Option ℕ → Option ℕ
    option_map f none = none
    option_map f (some h) = some (f h)

-- The entries as they are read, in units.
unfoldable pub in_units : ℕ → List TimesheetEntry → List TimesheetEntry
in_units units = map (each_hour (λ h. h * units))

-- The commit: each column rounds what it is given.
unfoldable pub stored : (ℕ → ℕ) → Timesheet → Timesheet
stored column t = record t {
  entries = map (each_hour column) t.entries;
  total_hours = column t.total_hours;
}

pub sum_of-map :
    (weight : DayStatus → ℕ) (f : ℕ → ℕ) (es : List TimesheetEntry)
    → sum_of weight (map (each_hour f) es) ≡ sum_of weight es
sum_of-map weight f [] = refl
sum_of-map weight f (e ∷ es) = ap (λ (n : ℕ). weight e.day_status + n) (sum_of-map weight f es)

-- The commit leaves the counts those of the entries.
pub stored-AreCounted :
    (column : ℕ → ℕ) (t : Timesheet) → AreCounted t → AreCounted (stored column t)
unfolding stored
stored-AreCounted column t h = record {
  lost = h.lost ∙ sym (sum_of-map lop_of column t.entries);
  halved = h.halved ∙ sym (sum_of-map half_of column t.entries);
  worked = rw (sum_of-map scheduled_of column t.entries) h.worked;
}
