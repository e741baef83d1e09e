-- ===== src/Timesheet/Examples.antt =====
-- A week that is generated, marked, submitted and approved.
use croar_backend_new.Prelude.{
  ℕ, ◌+◌, ◌/◌, List, Option, ◌≡◌, refl, true, false, some, none, [], ◌∷◌, map,
}
use croar_backend_new.Prelude.Int.{pos, ◌+ℤ◌, ◌-ℤ◌}
use croar_backend_new.Http.{Outcome, ok, raise, conflict}
use croar_backend_new.Calendar.{WorkCalendarConfig, days_from}
use croar_backend_new.Timesheet.{
  Timesheet, draft, submitted, approved, attendance, present, wfh, unpaid_leave, weekly_off,
  holiday, add_hours, add_day, sum_entries, recompute_aggregates, seed_status, seed_entries,
  generate,
}
use croar_backend_new.Timesheet.Edits.{
  EntryIn, apply_item, apply_items, bulk_update_entries, mark_entry, mark_item, mark_items,
  self_mark_entries,
}
use croar_backend_new.Leave.{LeaveRequest, LeaveStatus, AccrualMethod, Db}
use croar_backend_new.Timesheet.LeaveDays.{get_approved_leave_days, mark_all, mark_leave, fill}
use croar_backend_new.Timesheet.Status.{
  stamp_submitted, stamp_approved, transition, submit, approve, reject, reopen, overlay,
  resync_leave,
}
use croar_backend_new.Timesheet.Hours.{in_units, stored}
use croar_backend_new.Timesheet.Totals.{AreCounted}
use croar_backend_new.Timesheet.Marking.{self_mark_keeps}
use croar_backend_new.Timesheet.Lifecycle.{
  IsChecked, updated, approves, step-AreCounted, step-frozen, step-IsChecked,
}
use croar_backend_new.Timesheet.Overlay.{revise, resync_leave-revise, resync_leave-generate}

abbrev office : WorkCalendarConfig
office = record {
  use_calendar_working_days = true;
  weekly_offs = 5 ∷ 6 ∷ [];
  enforce_maker_checker = true;
}

program : Unit {0}
unfolding add_hours add_day sum_entries recompute_aggregates seed_status seed_entries generate
    apply_item apply_items bulk_update_entries mark_entry mark_item mark_items self_mark_entries
    stamp_submitted stamp_approved transition submit approve reject reopen overlay resync_leave
    in_units stored days_from ◌+ℤ◌ ◌-ℤ◌
program = tt

-- Thursday and Friday before a weekend and a holiday on the Monday.
abbrev sheet : Timesheet
sheet = record {
  employee = 5;
  mode = attendance;
  status = draft;
  entries =
      record { entry_date = 739_638; day_status = present; hours = none }
      ∷ record { entry_date = 739_639; day_status = present; hours = none }
      ∷ record { entry_date = 739_640; day_status = weekly_off; hours = none }
      ∷ record { entry_date = 739_641; day_status = weekly_off; hours = none }
      ∷ record { entry_date = 739_642; day_status = holiday; hours = none }
      ∷ [];
  worked_days = pos 200;
  lop_days = 0;
  half_days = 0;
  total_hours = 0;
  submitted_by = none;
  approved_by = none;
}

generated : generate 5 attendance 739_638 739_642 (5 ∷ 6 ∷ []) (739_642 ∷ []) [] ≡ sheet
unfolding program
generated = refl

sheet-AreCounted : AreCounted sheet
unfolding program
sheet-AreCounted = record { lost = refl; halved = refl; worked = refl }

-- HR records an absence on the Friday.
abbrev absence : EntryIn
absence = record { entry_date = 739_639; day_status = some unpaid_leave; hours = none }

abbrev absent : Timesheet
absent = record sheet {
  entries =
      record { entry_date = 739_638; day_status = present; hours = none }
      ∷ record { entry_date = 739_639; day_status = unpaid_leave; hours = none }
      ∷ record { entry_date = 739_640; day_status = weekly_off; hours = none }
      ∷ record { entry_date = 739_641; day_status = weekly_off; hours = none }
      ∷ record { entry_date = 739_642; day_status = holiday; hours = none }
      ∷ [];
  worked_days = pos 100;
  lop_days = 100;
}

-- Three decimals of an hour, of which a column keeps two.
abbrev column : ℕ → ℕ
column h = (h + 5) / 10

recorded : bulk_update_entries 10 column (some sheet) (some draft) (absence ∷ []) ≡ ok absent
unfolding program
recorded = refl

step-AreCounted_example : AreCounted absent
step-AreCounted_example =
    step-AreCounted office sheet absent (updated 10 column (some draft) (absence ∷ []) recorded)
      sheet-AreCounted

-- A decision on leave takes that absence away.
erased : resync_leave [] (some absent) (some draft) ≡ ok (some sheet)
unfolding program
erased = refl

resync_leave-revise_example : sheet.entries ≡ map (revise []) absent.entries
resync_leave-revise_example = resync_leave-revise [] (some draft) absent sheet erased

-- The leave of the Friday, and of the weekend after it, is taken back.
resync_leave-generate_example :
    resync_leave []
      (some (
        generate 5 attendance 739_638 739_642
          (5 ∷ 6 ∷ [])
          (739_642 ∷ [])
          ((739_639, unpaid_leave) ∷ (739_640, unpaid_leave) ∷ [])))
      (some draft)
    ≡ ok (some (generate 5 attendance 739_638 739_642 (5 ∷ 6 ∷ []) (739_642 ∷ []) []))
resync_leave-generate_example =
    resync_leave-generate 5 739_638 739_642 (5 ∷ 6 ∷ []) (739_642 ∷ [])
      ((739_639, unpaid_leave) ∷ (739_640, unpaid_leave) ∷ []) [] draft refl (refl, (refl, tt))

abbrev home : EntryIn
home = record { entry_date = 739_638; day_status = some wfh; hours = none }

abbrev marked : Timesheet
marked = record sheet {
  entries =
      record { entry_date = 739_638; day_status = wfh; hours = none }
      ∷ record { entry_date = 739_639; day_status = present; hours = none }
      ∷ record { entry_date = 739_640; day_status = weekly_off; hours = none }
      ∷ record { entry_date = 739_641; day_status = weekly_off; hours = none }
      ∷ record { entry_date = 739_642; day_status = holiday; hours = none }
      ∷ [];
}

marks : self_mark_entries 10 column 739_640 5 (some sheet) (some draft) (home ∷ []) ≡ ok marked
unfolding program
marks = refl

self_mark_keeps_example :
    (marked.worked_days ≡ pos 200)
    × (marked.lop_days ≡ 0)
    × (marked.half_days ≡ 0)
    × AreCounted marked
self_mark_keeps_example =
    self_mark_keeps 10 column 739_640 5 (some sheet) (some draft) (home ∷ []) sheet marked refl
      sheet-AreCounted marks

-- Two days of 7.333 hours are 7.33 hours each and 14.67 hours together.
abbrev hours_worked : Outcome Timesheet → List (Option ℕ) × ℕ
hours_worked (ok t) = (map (λ e. e.hours) t.entries, t.total_hours)
hours_worked (raise e) = ([], 0)

abbrev long_day : ℕ → EntryIn
long_day d = record { entry_date = d; day_status = none; hours = some 7333 }

rounded_apart :
    hours_worked (
      bulk_update_entries 10 column
        (some sheet)
        (some draft)
        (long_day 739_638 ∷ long_day 739_639 ∷ []))
    ≡ (some 733 ∷ some 733 ∷ none ∷ none ∷ none ∷ [], 1467)
unfolding program
rounded_apart = refl

abbrev sent : Timesheet
sent = record sheet { status = submitted; submitted_by = some 5 }

sends : submit office (some 5) (some sheet) ≡ ok sent
unfolding program
sends = refl

abbrev signed : Timesheet
signed = record sent { status = approved; approved_by = some 9 }

signs : approve office (some 9) (some sent) ≡ ok signed
unfolding program
signs = refl

own_approval : approve office (some 5) (some sent) ≡ raise conflict
unfolding program
own_approval = refl

step-frozen_example :
    (signed.entries ≡ sent.entries)
    × (signed.worked_days ≡ sent.worked_days)
    × (signed.lop_days ≡ sent.lop_days)
    × (signed.half_days ≡ sent.half_days)
    × (signed.total_hours ≡ sent.total_hours)
step-frozen_example = step-frozen office sent signed (approves (some 9) signs) refl

step-IsChecked_example : IsChecked office signed.status signed.approved_by signed.submitted_by
step-IsChecked_example = step-IsChecked office sent signed (approves (some 9) signs) refl

-- A leave from the Friday to the Monday, unpaid.
abbrev away : LeaveRequest
away = record {
  id = 1;
  company = 7;
  employee = 5;
  leave_type = 4;
  start_date = 739_639;
  end_date = 739_642;
  days = 100;
  half_day = false;
  status = LeaveStatus.approved;
  requested_by = some 5;
  approved_by = some 9;
  deleted = false;
}

abbrev ledger : Db
ledger = record {
  types =
      record {
        id = 4;
        company = 7;
        is_paid = false;
        annual_quota = 0;
        accrual = AccrualMethod.annual;
        deleted = false;
      }
      ∷ [];
  balances = [];
  requests = away ∷ [];
}

-- The weekend is in the map too.
four_days :
    map (λ p. p.0) (get_approved_leave_days 7 5 739_638 739_642 ledger)
    ≡ 739_642 ∷ 739_641 ∷ 739_640 ∷ 739_639 ∷ []
unfolding program get_approved_leave_days mark_all mark_leave fill
four_days = refl
