-- ===== src/Timesheet/BatchExamples.antt =====
-- The sheets of two employees for a cycle of two days, one of whom takes a day of unpaid leave.
use croar_backend_new.Prelude.{ℕ, ◌+◌, ◌≡◌, refl, true, false, some, none, List, [], ◌∷◌, All}
use croar_backend_new.Prelude.Int.{pos, ◌+ℤ◌, ◌-ℤ◌}
use croar_backend_new.Http.{ok, not_found}
use croar_backend_new.Calendar.{WorkCalendarConfig, days_from, holiday_dates}
use croar_backend_new.Leave.{LeaveStatus, Db}
use croar_backend_new.Timesheet.{
  PayrollCycleStatus, draft, attendance, present, add_hours, add_day, sum_entries,
  recompute_aggregates, seed_status, seed_entries, generate,
}
use croar_backend_new.Timesheet.Status.{overlay, resync_leave}
use croar_backend_new.Timesheet.LeaveDays.{get_approved_leave_days, mark_all, mark_leave, fill}
use croar_backend_new.Timesheet.Batch.{
  SheetRow, PayrollCycle, Payee, Batch, Progress, existing_ids, sheet_for, generate_loop,
  insert_rows, generate_for_cycle, resync_row, resync_then, resync_loop,
  resync_leave_for_employee_period,
}
use croar_backend_new.Timesheet.Generated.{AreUnique, IsCovered, generate_for_cycle-again}
use croar_backend_new.Timesheet.Resynced.{AllKept, resync_leave_for_employee_period-AllKept}

abbrev office : WorkCalendarConfig
office = record {
  use_calendar_working_days = true;
  weekly_offs = 5 ∷ 6 ∷ [];
  enforce_maker_checker = true;
}

abbrev no_leave : Db
no_leave = record { types = []; balances = []; requests = [] }

abbrev cycle_row : PayrollCycle
cycle_row = record {
  id = 1;
  company = 7;
  status = PayrollCycleStatus.draft;
  period_start = 739_638;
  period_end = 739_639;
  deleted = false;
}

abbrev staff : List Payee
staff =
    record { employee = 5; structure = some attendance }
    ∷ record { employee = 6; structure = none }
    ∷ []

program : Unit {0}
unfolding add_hours add_day sum_entries recompute_aggregates seed_status seed_entries generate
    overlay resync_leave get_approved_leave_days mark_all mark_leave fill days_from holiday_dates
    sheet_for generate_loop insert_rows generate_for_cycle resync_row resync_then resync_loop
    resync_leave_for_employee_period ◌+ℤ◌ ◌-ℤ◌
program = tt

abbrev fresh : ℕ → ℕ
fresh employee = 100 + employee

abbrev row : SheetRow
row = record {
  id = 105;
  company = 7;
  cycle = 1;
  period_start = 739_638;
  period_end = 739_639;
  deleted = false;
  sheet = record {
    employee = 5;
    mode = attendance;
    status = draft;
    entries =
        record { entry_date = 739_638; day_status = present; hours = none }
        ∷ record { entry_date = 739_639; day_status = present; hours = none }
        ∷ [];
    worked_days = pos 200;
    lop_days = 0;
    half_days = 0;
    total_hours = 0;
    submitted_by = none;
    approved_by = none;
  };
}

abbrev first_batch : Batch
first_batch = record { rows = row ∷ []; created = 1; existing = 0; skipped = 6 ∷ [] }

generated :
    generate_for_cycle office [] no_leave fresh (cycle_row ∷ []) staff 7 1 []
    ≡ ok (first_batch, row ∷ [])
unfolding program
generated = refl

generate_for_cycle-again_example :
    AreUnique (row ∷ [])
    × All (IsCovered (existing_ids 7 1 (row ∷ []))) staff
    × ((b' : Batch) × (generate_for_cycle office [] no_leave fresh
            (cycle_row ∷ [])
            staff
            7
            1
            (row ∷ [])
          ≡ ok (b', row ∷ []))
        × (b'.created ≡ 0))
generate_for_cycle-again_example =
    generate_for_cycle-again office office [] [] no_leave no_leave fresh fresh (cycle_row ∷ [])
      staff 7 1 [] (row ∷ []) first_batch generated tt

abbrev ledger : Db
ledger = record {
  types = [];
  balances = [];
  requests =
      record {
        id = 1;
        company = 7;
        employee = 5;
        leave_type = 4;
        start_date = 739_639;
        end_date = 739_642;
        days = 200;
        half_day = false;
        status = LeaveStatus.approved;
        requested_by = some 5;
        approved_by = some 9;
        deleted = false;
      }
      ∷ [];
}

-- A sheet of a cycle that is gone comes second.
abbrev orphan : SheetRow
orphan = record row { id = 106; cycle = 2 }

abbrev resynced : List PayrollCycle → Db → Progress
resynced cycles db =
    resync_leave_for_employee_period cycles db 7 5 739_639 739_642 (row ∷ orphan ∷ [])

-- The exception at the second sheet leaves the first one written.
half_way :
    ((resynced (cycle_row ∷ []) ledger).updated ≡ 1)
    × ((resynced (cycle_row ∷ []) ledger).failed ≡ some not_found)
unfolding program
half_way = (refl, refl)

resync_leave_for_employee_period-AllKept_example :
    AllKept (row ∷ orphan ∷ []) (resynced (cycle_row ∷ []) ledger).table
resync_leave_for_employee_period-AllKept_example =
    resync_leave_for_employee_period-AllKept (cycle_row ∷ []) ledger 7 5 739_639 739_642
      (row ∷ orphan ∷ [])
