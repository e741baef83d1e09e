-- ===== src/Attendance/Days.antt =====
-- app/router/enterprise/attendance.py: the day of an employee that is loaded or opened, and punches.
use croar_backend_new.Prelude.{
  ℕ, ◌/◌, Bool, false, not, ◌&&◌, Option, none, some, List, [], ◌∷◌, ◌++◌, find_first, update_first,
  ◌==◌,
}
use croar_backend_new.Http.{Outcome, ok, not_found, conflict, raise_if, found_or, then_ok}
use croar_backend_new.Attendance.{
  AttendanceDay, AttendanceSource, Direction, Shift, State, WorkMode, absent, recompute, web,
}

abbrev pub is_day : ℕ → ℕ → AttendanceDay → Bool
is_day employee date d = d.employee == employee && d.work_date == date

abbrev pub new_day : ℕ → ℕ → AttendanceDay
new_day employee date = record {
  employee = employee;
  work_date = date;
  shift_id = none;
  status = absent;
  work_mode = none;
  source = web;
  first_in = none;
  last_out = none;
  work_minutes = 0;
  late_minutes = 0;
  locked = false;
  punches = [];
}

-- `_load_or_open_day`: the days with the one that is loaded or opened, and that day.
abbrev pub opened : ℕ → ℕ → List AttendanceDay → Option AttendanceDay → List AttendanceDay
opened employee date days none = new_day employee date ∷ days
opened employee date days (some day) = days

abbrev pub loaded : ℕ → ℕ → Option AttendanceDay → AttendanceDay
loaded employee date none = new_day employee date
loaded employee date (some day) = day

-- A change to the day of the employee and the date, opened where it is missing; refused where the day
-- is locked.
abbrev pub change_found :
    ℕ
    → ℕ
    → (AttendanceDay → Outcome AttendanceDay)
    → List AttendanceDay
    → Option AttendanceDay
    → Outcome (List AttendanceDay)
change_found employee date change days found =
    raise_if (loaded employee date found).locked conflict (
      then_ok (change (loaded employee date found)) (λ day.
        ok (update_first (is_day employee date) (λ _. day) (opened employee date days found))))

unfoldable pub change_day :
    ℕ
    → ℕ
    → (AttendanceDay → Outcome AttendanceDay)
    → List AttendanceDay
    → Outcome (List AttendanceDay)
change_day employee date change days =
    change_found employee date change days (find_first (is_day employee date) days)

abbrev pub or_mode : Option WorkMode → Option WorkMode → Option WorkMode
or_mode none old = old
or_mode (some m) old = some m

abbrev pub or_time : Option ℕ → Option ℕ → Option ℕ
or_time none old = old
or_time (some t) old = some t

abbrev pub live_shift : ℕ → Shift → Bool
live_shift id s = s.id == id && not s.deleted

-- `_resolve_shift`: the shift of the day, or else the default one, where there is one.
abbrev pub resolve_shift :
    Option ℕ → List Shift → (Option Shift → Outcome AttendanceDay) → Outcome AttendanceDay
resolve_shift (some id) shifts k =
    found_or (find_first (live_shift id) shifts) not_found (λ s. k (some s))
resolve_shift none shifts k = k (find_first (λ s. s.is_default && not s.deleted) shifts)

abbrev pub or_shift : Option ℕ → Option Shift → Option ℕ
or_shift (some id) shift = some id
or_shift none none = none
or_shift none (some s) = some s.id

pub record PunchIn : Type 0 where
  pub direction : Direction
  pub work_mode : Option WorkMode
  pub source : AttendanceSource
  pub at : ℕ

abbrev pub punched : PunchIn → AttendanceDay → Option Shift → AttendanceDay
punched i day shift =
    let punches = day.punches ++ (record { direction = i.direction; punched_at = i.at } ∷ []) in
    recompute
      (record day {
        shift_id = or_shift day.shift_id shift;
        work_mode = or_mode i.work_mode day.work_mode;
        source = i.source;
        punches = punches;
      })
      punches shift

unfoldable pub punch : Option ℕ → PunchIn → State → Outcome State
punch employee i s = found_or employee not_found (λ e.
    then_ok
      (change_day e (i.at / 86400)
        (λ day. resolve_shift day.shift_id s.shifts (λ shift. ok (punched i day shift))) s.days)
      (λ days. ok (record s { days = days })))
