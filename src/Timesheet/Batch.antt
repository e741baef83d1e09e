-- ===== src/Timesheet/Batch.antt =====
-- app/services/payroll/timesheet_service.py: the loops over the employees of a cycle and over the sheets
-- of an employee, on the table of sheets. A sheet is unique for its cycle and employee, deleted or not.
use croar_backend_new.Prelude.{
  ℕ, suc, Bool, false, not, ◌&&◌, Option, none, some, List, [], ◌∷◌, map, contains, select,
  find_first, update_first, any, ◌==◌, ltb, if◌then◌else◌,
}
use croar_backend_new.Http.{
  Outcome, ok, raise, HttpError, not_found, server_error, raise_if, found_or, then_ok,
}
use croar_backend_new.Calendar.{WorkCalendarConfig, Holiday, holiday_dates}
use croar_backend_new.Leave.{Db}
use croar_backend_new.Timesheet.{
  Timesheet, TimesheetMode, attendance, hourly, DayStatus, PayrollCycleStatus, generate,
  editable_state,
}
use croar_backend_new.Timesheet.Status.{resync_leave}
use croar_backend_new.Timesheet.LeaveDays.{get_approved_leave_days}

pub record SheetRow : Type 0 where
  pub id : ℕ
  pub company : ℕ
  pub cycle : ℕ
  pub period_start : ℕ
  pub period_end : ℕ
  pub deleted : Bool
  pub sheet : Timesheet

pub record PayrollCycle : Type 0 where
  pub id : ℕ
  pub company : ℕ
  pub status : PayrollCycleStatus
  pub period_start : ℕ
  pub period_end : ℕ
  pub deleted : Bool

-- An employee of the company, with the pay of the active salary structure, where there is one.
pub record Payee : Type 0 where
  pub employee : ℕ
  pub structure : Option TimesheetMode

abbrev pub is_cycle : ℕ → ℕ → PayrollCycle → Bool
is_cycle id company c = c.id == id && (c.company == company && not c.deleted)

abbrev pub load_cycle : ℕ → ℕ → List PayrollCycle → Option PayrollCycle
load_cycle id company = find_first (is_cycle id company)

abbrev pub in_cycle : ℕ → ℕ → SheetRow → Bool
in_cycle company cycle r = r.cycle == cycle && (r.company == company && not r.deleted)

abbrev pub existing_ids : ℕ → ℕ → List SheetRow → List ℕ
existing_ids company cycle table =
    map (λ r. r.sheet.employee) (select (in_cycle company cycle) table)

-- What the loop over the employees has made.
pub record Batch : Type 0 where
  pub rows : List SheetRow
  pub created : ℕ
  pub existing : ℕ
  pub skipped : List ℕ

abbrev pub count_existing : Batch → Batch
count_existing b = record b { existing = suc b.existing }

abbrev pub count_skipped : ℕ → Batch → Batch
count_skipped employee b = record b { skipped = employee ∷ b.skipped }

abbrev pub count_created : SheetRow → Batch → Batch
count_created r b = record b { rows = r ∷ b.rows; created = suc b.created }

-- Hourly sheets ask for no leave.
abbrev leave_for : TimesheetMode → ℕ → PayrollCycle → ℕ → Db → List (ℕ × DayStatus)
leave_for hourly company c employee db = []
leave_for attendance company c employee db =
    get_approved_leave_days company employee c.period_start c.period_end db

module _ (cfg : WorkCalendarConfig) (holidays : List Holiday) (db : Db) (fresh : ℕ → ℕ)
    (company cycle : ℕ) (c : PayrollCycle) where
  -- The sheet of an employee; `fresh` gives the ids of new rows.
  unfoldable pub sheet_for : ℕ → TimesheetMode → SheetRow
  sheet_for employee mode = record {
    id = fresh employee;
    company = company;
    cycle = cycle;
    period_start = c.period_start;
    period_end = c.period_end;
    deleted = false;
    sheet =
        generate employee mode c.period_start c.period_end cfg.weekly_offs
          (holiday_dates company c.period_start c.period_end holidays)
          (leave_for mode company c employee db);
  }

  abbrev pub or_skip : ℕ → Option TimesheetMode → Batch → Batch
  or_skip employee none b = count_skipped employee b
  or_skip employee (some mode) b = count_created (sheet_for employee mode) b

  unfoldable pub generate_loop : List ℕ → List Payee → Batch
  generate_loop ids [] = record { rows = []; created = 0; existing = 0; skipped = [] }
  generate_loop ids (p ∷ ps) =
      let rest = generate_loop ids ps in
      if contains p.employee ids then count_existing rest else or_skip p.employee p.structure rest

-- The unique constraint on the cycle and the employee.
abbrev pub is_taken : SheetRow → SheetRow → Bool
is_taken r x = x.cycle == r.cycle && x.sheet.employee == r.sheet.employee

unfoldable pub insert_rows : List SheetRow → List SheetRow → Outcome (List SheetRow)
insert_rows [] table = ok table
insert_rows (r ∷ rows) table =
    raise_if (any (is_taken r) table) server_error (insert_rows rows (r ∷ table))

-- `employees` are those of the company that are not deleted.
unfoldable pub generate_for_cycle :
    WorkCalendarConfig
    → List Holiday
    → Db
    → (ℕ → ℕ)
    → List PayrollCycle
    → List Payee
    → ℕ
    → ℕ
    → List SheetRow
    → Outcome (Batch × List SheetRow)
generate_for_cycle cfg holidays db fresh cycles employees company cycle table =
    found_or (load_cycle cycle company cycles) not_found (λ c.
      let b =
        generate_loop cfg holidays db fresh company cycle c (existing_ids company cycle table)
          employees in
      then_ok (insert_rows b.rows table) (λ t. ok (b, t)))

abbrev pub is_sheet : ℕ → ℕ → SheetRow → Bool
is_sheet id company r = r.id == id && (r.company == company && not r.deleted)

abbrev pub is_due : ℕ → ℕ → ℕ → ℕ → SheetRow → Bool
is_due company employee start last r =
    (r.company == company && r.sheet.employee == employee)
    && ((not r.deleted && editable_state r.sheet.status)
        && (not (ltb last r.period_start) && not (ltb r.period_end start)))

-- What a resync of one sheet leaves: each writes its own sheet, so that an exception keeps the sheets
-- written before it.
pub record Progress : Type 0 where
  pub table : List SheetRow
  pub updated : ℕ
  pub failed : Option HttpError

abbrev pub with_sheet : Timesheet → SheetRow → SheetRow
with_sheet ts r = record r { sheet = ts }

abbrev pub sheet_of : Option SheetRow → Option Timesheet
sheet_of none = none
sheet_of (some r) = some r.sheet

abbrev pub leave_in : Db → Option SheetRow → List (ℕ × DayStatus)
leave_in db none = []
leave_in db (some r) =
    get_approved_leave_days r.company r.sheet.employee r.period_start r.period_end db

abbrev pub status_in : List PayrollCycle → ℕ → Option SheetRow → Option PayrollCycleStatus
status_in cycles company none = none
status_in cycles company (some r) = status_of (load_cycle r.cycle company cycles)
  where
    status_of : Option PayrollCycle → Option PayrollCycleStatus
    status_of none = none
    status_of (some c) = some c.status

module _ (cycles : List PayrollCycle) (db : Db) (company : ℕ) where
  -- `resync_leave` on the table.
  unfoldable pub resync_row : ℕ → List SheetRow → Outcome (Option Timesheet)
  resync_row id table =
      let found = find_first (is_sheet id company) table in
      resync_leave (leave_in db found) (sheet_of found) (status_in cycles company found)

  abbrev pub write_sheet : ℕ → Timesheet → List SheetRow → List SheetRow
  write_sheet id ts = update_first (is_sheet id company) (with_sheet ts)

  -- How the loop goes on after a sheet.
  unfoldable pub resync_then :
      (ℕ → List SheetRow → Progress) → ℕ → ℕ → List SheetRow → Outcome (Option Timesheet) → Progress
  resync_then rest id updated table (ok none) = rest updated table
  resync_then rest id updated table (ok (some ts)) = rest (suc updated) (write_sheet id ts table)
  resync_then rest id updated table (raise e) = record {
    table = table;
    updated = updated;
    failed = some e;
  }

  unfoldable pub resync_loop : List ℕ → ℕ → List SheetRow → Progress
  resync_loop [] updated table = record { table = table; updated = updated; failed = none }
  resync_loop (id ∷ ids) updated table =
      resync_then (resync_loop ids) id updated table (resync_row id table)

  unfoldable pub resync_leave_for_employee_period : ℕ → ℕ → ℕ → List SheetRow → Progress
  resync_leave_for_employee_period employee start last table =
      resync_loop (map (λ r. r.id) (select (is_due company employee start last) table)) 0 table
