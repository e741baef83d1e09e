-- ===== src/Timesheet.antt =====
-- app/services/payroll/timesheet_service.py: a timesheet, its daily entries and the cached
-- aggregates. Days and hours are in hundredths, dates are ordinals. An operation takes the row that
-- its query finds, and the status of the payroll cycle that it loads; notes and time stamps are left
-- out.
pub mod Edits
pub mod Status
pub mod Totals
pub mod Hours
pub mod Marking
pub mod Lifecycle
pub mod Overlay
pub mod Seeded
pub mod LeaveDays
pub mod Import
pub mod Protected
pub mod Batch
pub mod Generated
pub mod Resynced
mod Examples
mod ImportExamples
mod BatchExamples
use croar_backend_new.Prelude.{
  ℕ, suc, ◌+◌, ◌-◌, Bool, true, false, not, ◌&&◌, ◌||◌, Option, none, some, List, [], ◌∷◌, map,
  contains, find_first, update_first, any, ◌==◌, ltb, if◌then◌else◌,
}
use croar_backend_new.Prelude.Int.{ℤ, pos, ◌+ℤ◌, ◌-ℤ◌}
use croar_backend_new.Http.{
  Outcome, ok, raise, not_found, conflict, unprocessable, raise_if, found_or, then_ok,
}
use croar_backend_new.Calendar.{weekday, days}

pub data DayStatus : Type 0 where
  present paid_leave unpaid_leave half_day half_day_paid wfh holiday weekly_off : DayStatus

pub data TimesheetStatus : Type 0 where
  draft submitted approved rejected : TimesheetStatus

pub data PayrollCycleStatus : Type 0 where
  draft processing approved paid cancelled : PayrollCycleStatus

pub data PayslipStatus : Type 0 where
  pending paid : PayslipStatus

pub data TimesheetMode : Type 0 where
  attendance hourly : TimesheetMode

pub record TimesheetEntry : Type 0 where
  pub entry_date : ℕ
  pub day_status : DayStatus
  pub hours : Option ℕ

pub record Timesheet : Type 0 where
  pub employee : ℕ
  pub mode : TimesheetMode
  pub status : TimesheetStatus
  pub entries : List TimesheetEntry
  pub worked_days : ℤ
  pub lop_days : ℕ
  pub half_days : ℕ
  pub total_hours : ℕ
  pub submitted_by : Option ℕ
  pub approved_by : Option ℕ

-- The sets of statuses of the source as tests.
abbrev pub non_working : DayStatus → Bool
non_working weekly_off = true
non_working holiday = true
non_working _ = false

abbrev pub leave_locked : DayStatus → Bool
leave_locked paid_leave = true
leave_locked unpaid_leave = true
leave_locked half_day = true
leave_locked half_day_paid = true
leave_locked _ = false

abbrev pub self_markable : DayStatus → Bool
self_markable present = true
self_markable wfh = true
self_markable _ = false

abbrev pub leave_overlay : DayStatus → Bool
leave_overlay present = true
leave_overlay s = leave_locked s

abbrev pub editable_state : TimesheetStatus → Bool
editable_state draft = true
editable_state rejected = true
editable_state submitted = false
editable_state approved = false

abbrev pub editable_cycle : PayrollCycleStatus → Bool
editable_cycle draft = true
editable_cycle processing = true
editable_cycle approved = false
editable_cycle paid = false
editable_cycle cancelled = false

-- The variables of the loop of `recompute_aggregates`.
pub record Sums : Type 0 where
  pub scheduled : ℕ
  pub lop : ℕ
  pub halves : ℕ
  pub hours : ℕ

unfoldable pub add_hours : Option ℕ → Sums → Sums
add_hours none s = s
add_hours (some h) s = record s { hours = s.hours + h }

unfoldable pub add_day : DayStatus → Sums → Sums
add_day weekly_off s = s
add_day holiday s = s
add_day unpaid_leave s = record s { scheduled = s.scheduled + 100; lop = s.lop + 100 }
add_day half_day s = record s {
  scheduled = s.scheduled + 100;
  halves = s.halves + 100;
  lop = s.lop + 50;
}
add_day half_day_paid s = record s { scheduled = s.scheduled + 100; halves = s.halves + 100 }
add_day present s = record s { scheduled = s.scheduled + 100 }
add_day wfh s = record s { scheduled = s.scheduled + 100 }
add_day paid_leave s = record s { scheduled = s.scheduled + 100 }

unfoldable pub sum_entries : List TimesheetEntry → Sums → Sums
sum_entries [] s = s
sum_entries (e ∷ es) s = sum_entries es (add_day e.day_status (add_hours e.hours s))

unfoldable pub recompute_aggregates : Timesheet → Timesheet
recompute_aggregates ts =
    let s = sum_entries ts.entries (record { scheduled = 0; lop = 0; halves = 0; hours = 0 }) in
    record ts {
      lop_days = s.lop;
      half_days = s.halves;
      worked_days = pos s.scheduled -ℤ pos s.lop;
      total_hours = s.hours;
    }

-- `leave_days.get(day)`, of a map as the list of its pairs, the latest first.
abbrev pub leave_on : ℕ → List (ℕ × DayStatus) → Option DayStatus
leave_on day [] = none
leave_on day ((d, s) ∷ leave) = let rest = leave_on day leave in if d == day then some s else rest

abbrev pub or_present : Option DayStatus → DayStatus
or_present none = present
or_present (some s) = s

-- The status that `_seed_entries` gives a day.
unfoldable pub seed_status : List ℕ → List ℕ → List (ℕ × DayStatus) → ℕ → DayStatus
seed_status weekly_offs holidays leave day =
    if contains (weekday day) weekly_offs
    then weekly_off
    else if contains day holidays
    then holiday
    else or_present (leave_on day leave)

abbrev pub seed_entry : List ℕ → List ℕ → List (ℕ × DayStatus) → ℕ → TimesheetEntry
seed_entry weekly_offs holidays leave day = record {
  entry_date = day;
  day_status = seed_status weekly_offs holidays leave day;
  hours = none;
}

unfoldable pub seed_entries : ℕ → ℕ → List ℕ → List ℕ → List (ℕ × DayStatus) → List TimesheetEntry
seed_entries period_start period_end weekly_offs holidays leave =
    map (seed_entry weekly_offs holidays leave) (days period_start period_end)

abbrev pub new_sheet : ℕ → TimesheetMode → List TimesheetEntry → Timesheet
new_sheet employee mode entries = record {
  employee = employee;
  mode = mode;
  status = draft;
  entries = entries;
  worked_days = pos 0;
  lop_days = 0;
  half_days = 0;
  total_hours = 0;
  submitted_by = none;
  approved_by = none;
}

-- Hourly sheets take no leave.
abbrev leave_of : TimesheetMode → List (ℕ × DayStatus) → List (ℕ × DayStatus)
leave_of hourly leave = []
leave_of attendance leave = leave

-- A sheet as `generate_for_cycle` makes it for an employee.
unfoldable pub generate :
    ℕ → TimesheetMode → ℕ → ℕ → List ℕ → List ℕ → List (ℕ × DayStatus) → Timesheet
generate employee mode period_start period_end weekly_offs holidays leave = recompute_aggregates (
    new_sheet employee mode
      (seed_entries period_start period_end weekly_offs holidays (leave_of mode leave)))
