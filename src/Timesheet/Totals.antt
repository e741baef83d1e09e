-- ===== src/Timesheet/Totals.antt =====
-- The cached aggregates against the entries.
use croar_backend_new.Prelude.{ℕ, ◌+◌, ◌≡◌, ap, ◌∙◌, Option, none, some, List, [], ◌∷◌, arith}
use croar_backend_new.Prelude.Int.{ℤ, pos, ◌+ℤ◌, ◌-ℤ◌, int_laws}
use croar_backend_new.Timesheet.{
  DayStatus, unpaid_leave, half_day, half_day_paid, holiday, weekly_off, TimesheetEntry, Timesheet,
  Sums, add_hours, add_day, sum_entries, recompute_aggregates,
}

-- What a status counts for, in hundredths of a day.
abbrev pub scheduled_of : DayStatus → ℕ
scheduled_of weekly_off = 0
scheduled_of holiday = 0
scheduled_of _ = 100

abbrev pub lop_of : DayStatus → ℕ
lop_of unpaid_leave = 100
lop_of half_day = 50
lop_of _ = 0

abbrev pub half_of : DayStatus → ℕ
half_of half_day = 100
half_of half_day_paid = 100
half_of _ = 0

abbrev pub sum_of : (DayStatus → ℕ) → List TimesheetEntry → ℕ
sum_of weight [] = 0
sum_of weight (e ∷ es) = weight e.day_status + sum_of weight es

abbrev pub or_zero : Option ℕ → ℕ
or_zero none = 0
or_zero (some h) = h

abbrev pub hours_of : List TimesheetEntry → ℕ
hours_of [] = 0
hours_of (e ∷ es) = or_zero e.hours + hours_of es

-- The aggregates are the sums over the entries, and every scheduled day is worked or lost.
pub record IsConsistent (ts : Timesheet) : Type 0 where
  pub lost : ts.lop_days ≡ sum_of lop_of ts.entries
  pub halved : ts.half_days ≡ sum_of half_of ts.entries
  pub logged : ts.total_hours ≡ hours_of ts.entries
  pub worked : ts.worked_days +ℤ pos ts.lop_days ≡ pos (sum_of scheduled_of ts.entries)

-- The same of the days alone.
pub record AreCounted (ts : Timesheet) : Type 0 where
  pub lost : ts.lop_days ≡ sum_of lop_of ts.entries
  pub halved : ts.half_days ≡ sum_of half_of ts.entries
  pub worked : ts.worked_days +ℤ pos ts.lop_days ≡ pos (sum_of scheduled_of ts.entries)

pub IsConsistent-AreCounted : (ts : Timesheet) → IsConsistent ts → AreCounted ts
IsConsistent-AreCounted ts h = record { lost = h.lost; halved = h.halved; worked = h.worked }

-- One entry in the loop.
step_lem :
    (d : DayStatus) (h : Option ℕ) (s : Sums)
    → let t = add_day d (add_hours h s) in
      (t.scheduled ≡ s.scheduled + scheduled_of d)
      × (t.lop ≡ s.lop + lop_of d)
      × (t.halves ≡ s.halves + half_of d)
      × (t.hours ≡ s.hours + or_zero h)
unfolding add_day add_hours
step_lem d h s = (ground arith, ground arith, ground arith, ground arith)

sum_entries_lem :
    (es : List TimesheetEntry) (s : Sums)
    → let t = sum_entries es s in
      (t.scheduled ≡ s.scheduled + sum_of scheduled_of es)
      × (t.lop ≡ s.lop + sum_of lop_of es)
      × (t.halves ≡ s.halves + sum_of half_of es)
      × (t.hours ≡ s.hours + hours_of es)
unfolding sum_entries
sum_entries_lem [] s = (omega arith, omega arith, omega arith, omega arith)
sum_entries_lem (e ∷ es) s =
    let t = add_day e.day_status (add_hours e.hours s) in
    let (a, b, c, d) = step_lem e.day_status e.hours s in
    let (a', b', c', d') = sum_entries_lem es t in
    (omega (arith, a, a'), omega (arith, b, b'), omega (arith, c, c'), omega (arith, d, d'))

sub_add : (a b : ℤ) → a -ℤ b +ℤ b ≡ a
sub_add a b = omega int_laws

pub recompute-IsConsistent : (ts : Timesheet) → IsConsistent (recompute_aggregates ts)
unfolding recompute_aggregates
recompute-IsConsistent ts =
    let start : Sums = record { scheduled = 0; lop = 0; halves = 0; hours = 0 } in
    let (a, b, c, d) = sum_entries_lem ts.entries start in
    record {
      lost = omega (arith, b);
      halved = omega (arith, c);
      logged = omega (arith, d);
      worked =
          sub_add (pos (sum_entries ts.entries start).scheduled)
            (pos (sum_entries ts.entries start).lop)
          ∙ ap pos (omega (arith, a));
    }
