-- ===== src/Timesheet/Status.antt =====
-- The lifecycle of a timesheet and the overlay of approved leave
-- (app/services/payroll/timesheet_service.py).
use croar_backend_new.Prelude.{
  ℕ, Bool, true, false, not, ◌&&◌, ◌||◌, Option, none, some, List, map, any, if◌then◌else◌,
}
use croar_backend_new.Http.{Outcome, ok, not_found, conflict, raise_if, found_or, then_ok}
use croar_backend_new.Calendar.{WorkCalendarConfig}
use croar_backend_new.Leave.{same_user}
use croar_backend_new.Timesheet.{
  DayStatus, TimesheetStatus, draft, submitted, approved, rejected, PayrollCycleStatus,
  TimesheetMode, attendance, hourly, TimesheetEntry, Timesheet, leave_overlay, editable_state,
  editable_cycle, recompute_aggregates, leave_on, or_present, present, paid_leave, unpaid_leave,
  half_day, half_day_paid, wfh, holiday, weekly_off,
}

abbrev pub is_submitted : TimesheetStatus → Bool
is_submitted submitted = true
is_submitted draft = false
is_submitted approved = false
is_submitted rejected = false

abbrev pub is_approved : TimesheetStatus → Bool
is_approved approved = true
is_approved draft = false
is_approved submitted = false
is_approved rejected = false

-- `_transition`, with its two flags.
unfoldable pub stamp_submitted : Bool → Option ℕ → Timesheet → Timesheet
stamp_submitted true actor ts = record ts { submitted_by = actor }
stamp_submitted false actor ts = ts

unfoldable pub stamp_approved : Bool → Option ℕ → Timesheet → Timesheet
stamp_approved true actor ts = record ts { approved_by = actor }
stamp_approved false actor ts = ts

unfoldable pub transition :
    WorkCalendarConfig
    → (TimesheetStatus → Bool)
    → TimesheetStatus
    → Option ℕ
    → Bool
    → Bool
    → Option Timesheet
    → Outcome Timesheet
transition cfg allowed_from to actor set_submitted set_approved found =
    found_or found not_found (λ ts. raise_if (not (allowed_from ts.status)) conflict (
      raise_if (set_approved && (cfg.enforce_maker_checker && same_user actor ts.submitted_by))
        conflict
        (ok (
          stamp_approved set_approved actor
            (stamp_submitted set_submitted actor (record ts { status = to }))))))

unfoldable pub submit : WorkCalendarConfig → Option ℕ → Option Timesheet → Outcome Timesheet
submit cfg actor = transition cfg editable_state submitted actor true false

unfoldable pub approve : WorkCalendarConfig → Option ℕ → Option Timesheet → Outcome Timesheet
approve cfg actor = transition cfg is_submitted approved actor false true

unfoldable pub reject : WorkCalendarConfig → Option ℕ → Option Timesheet → Outcome Timesheet
reject cfg actor = transition cfg is_submitted rejected actor false false

unfoldable pub reopen : WorkCalendarConfig → Option ℕ → Option Timesheet → Outcome Timesheet
reopen cfg actor found =
    then_ok (transition cfg (λ s. is_submitted s || is_approved s) draft actor false false found)
      (λ ts. ok (record ts { submitted_by = none; approved_by = none }))

abbrev pub same_status : DayStatus → DayStatus → Bool
same_status present present = true
same_status paid_leave paid_leave = true
same_status unpaid_leave unpaid_leave = true
same_status half_day half_day = true
same_status half_day_paid half_day_paid = true
same_status wfh wfh = true
same_status holiday holiday = true
same_status weekly_off weekly_off = true
same_status _ _ = false

abbrev target : List (ℕ × DayStatus) → TimesheetEntry → DayStatus
target leave e = or_present (leave_on e.entry_date leave)

unfoldable pub overlay : List (ℕ × DayStatus) → TimesheetEntry → TimesheetEntry
overlay leave e = if leave_overlay e.day_status then record e { day_status = target leave e } else e

-- Whether the overlay changes an entry.
abbrev pub moves : List (ℕ × DayStatus) → TimesheetEntry → Bool
moves leave e = leave_overlay e.day_status && not (same_status e.day_status (target leave e))

abbrev pub is_hourly : TimesheetMode → Bool
is_hourly hourly = true
is_hourly attendance = false

-- `none` is a sheet that is skipped.
unfoldable pub resync_leave :
    List (ℕ × DayStatus) → Option Timesheet → Option PayrollCycleStatus → Outcome (Option Timesheet)
resync_leave leave found cycle = found_or found not_found (λ ts.
    if is_hourly ts.mode || not (editable_state ts.status)
    then ok none
    else found_or cycle not_found (λ c.
      if not (editable_cycle c)
      then ok none
      else if any (moves leave) ts.entries
      then ok (some (recompute_aggregates (record ts { entries = map (overlay leave) ts.entries })))
      else ok (some ts)))
