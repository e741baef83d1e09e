-- ===== src/Attendance/Requests.antt =====
-- app/router/enterprise/attendance.py: days that HR marks, and the requests to correct a day.
use croar_backend_new.Prelude.{
  ℕ, ◌-◌, ◌/◌, Bool, true, false, not, ◌&&◌, Option, none, some, List, ◌∷◌, find_first,
  update_first, any, ◌==◌, ltb,
}
use croar_backend_new.Http.{
  Outcome, ok, bad_request, not_found, conflict, raise_if, found_or, then_ok,
}
use croar_backend_new.Attendance.{
  AttendanceStatus, manual, regularization, WorkMode, RegularizationStatus, pending, approved,
  rejected, cancelled, AttendanceDay, AttendanceRegularization, State,
}
use croar_backend_new.Attendance.Days.{or_mode, or_time, change_day}

-- The minutes between the first in and the last out, where the day has both.
abbrev minutes_between : Option ℕ → Option ℕ → ℕ → ℕ
minutes_between (some first) (some last) old = (last - first) / 60
minutes_between none _ old = old
minutes_between (some first) none old = old

abbrev pub with_times : Option ℕ → Option ℕ → AttendanceDay → AttendanceDay
with_times first last day = record day {
  first_in = or_time first day.first_in;
  last_out = or_time last day.last_out;
  work_minutes =
      minutes_between (or_time first day.first_in) (or_time last day.last_out) day.work_minutes;
}

pub record MarkIn : Type 0 where
  pub work_date : ℕ
  pub status : AttendanceStatus
  pub work_mode : Option WorkMode
  pub shift_id : Option ℕ
  pub first_in : Option ℕ
  pub last_out : Option ℕ

abbrev pub marked : MarkIn → AttendanceDay → AttendanceDay
marked i day = with_times i.first_in i.last_out (record day {
  status = i.status;
  source = manual;
  work_mode = or_mode i.work_mode day.work_mode;
  shift_id = or_time i.shift_id day.shift_id;
})

unfoldable pub mark_day : Option ℕ → MarkIn → State → Outcome State
mark_day employee i s = found_or employee not_found (λ e.
    then_ok (change_day e i.work_date (λ day. ok (marked i day)) s.days)
      (λ days. ok (record s { days = days })))

pub record RegularizationIn : Type 0 where
  pub work_date : ℕ
  pub requested_status : AttendanceStatus
  pub requested_in : Option ℕ
  pub requested_out : Option ℕ
  pub requested_work_mode : Option WorkMode

abbrev pub is_pending : RegularizationStatus → Bool
is_pending pending = true
is_pending approved = false
is_pending rejected = false
is_pending cancelled = false

abbrev pub waits : ℕ → ℕ → AttendanceRegularization → Bool
waits employee date r = (r.employee == employee && r.work_date == date) && is_pending r.status

abbrev pub new_request : ℕ → ℕ → RegularizationIn → AttendanceRegularization
new_request new employee i = record {
  id = new;
  employee = employee;
  work_date = i.work_date;
  requested_status = i.requested_status;
  requested_in = i.requested_in;
  requested_out = i.requested_out;
  requested_work_mode = i.requested_work_mode;
  status = pending;
}

unfoldable pub request_regularization : ℕ → ℕ → Option ℕ → RegularizationIn → State → Outcome State
request_regularization today new employee i s = found_or employee not_found (λ e.
    raise_if (ltb today i.work_date) bad_request (
      raise_if (any (waits e i.work_date) s.requests) conflict
        (ok (record s { requests = new_request new e i ∷ s.requests }))))

pub data Decision : Type 0 where
  approve reject : Decision

abbrev pub decided : Decision → AttendanceRegularization → AttendanceRegularization
decided approve r = record r { status = approved }
decided reject r = record r { status = rejected }

abbrev pub is_request : ℕ → AttendanceRegularization → Bool
is_request id r = r.id == id

abbrev pub corrected : AttendanceRegularization → AttendanceDay → AttendanceDay
corrected r day = with_times r.requested_in r.requested_out (record day {
  status = r.requested_status;
  source = regularization;
  work_mode = or_mode r.requested_work_mode day.work_mode;
})

-- Approving writes the day.
abbrev pub write_day :
    Decision → AttendanceRegularization → List AttendanceDay → Outcome (List AttendanceDay)
write_day reject r days = ok days
write_day approve r days = change_day r.employee r.work_date (λ day. ok (corrected r day)) days

unfoldable pub decide_regularization : ℕ → Decision → State → Outcome State
decide_regularization id decision s =
    found_or (find_first (is_request id) s.requests) not_found (λ r.
      raise_if (not (is_pending r.status)) conflict (
        then_ok (write_day decision r s.days) (λ days. ok (record s {
          days = days;
          requests = update_first (is_request id) (decided decision) s.requests;
        }))))
