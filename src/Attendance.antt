-- ===== src/Attendance.antt =====
-- app/router/enterprise/attendance.py: the days of attendance of a company, their punches, the shifts
-- and the requests to correct a day. Datetimes are whole seconds from the ordinal 0, dates are
-- ordinals, a shift starts at its second of the day. The state holds the days, the shifts and the
-- requests of the company; what the query for the employee finds, the clock and the ids of new rows
-- are arguments. Notes, locations, the other columns of a shift and the listings are left out.
pub mod Days
pub mod Requests
pub mod Shifts
pub mod Punches
mod Examples
use croar_backend_new.Prelude.{
  ℕ, ◌+◌, ◌-◌, ◌*◌, ◌/◌, Bool, true, false, not, ◌&&◌, Option, none, some, List, [], ◌∷◌, ◌++◌,
  select, find_first, update_first, update_where, any, ◌==◌, ltb, leb, if◌then◌else◌, is_some,
}
use croar_backend_new.Text.{Text, text_eq}
use croar_backend_new.Http.{
  Outcome, ok, bad_request, not_found, conflict, server_error, raise_if, found_or, then_ok,
}

pub data AttendanceStatus : Type 0 where
  present absent half_day leave holiday weekly_off : AttendanceStatus

pub data AttendanceSource : Type 0 where
  web biometric mobile manual imported regularization : AttendanceSource

pub data WorkMode : Type 0 where
  office remote hybrid field : WorkMode

pub data Direction : Type 0 where
  go_in go_out : Direction

pub data RegularizationStatus : Type 0 where
  pending approved rejected cancelled : RegularizationStatus

pub record Shift : Type 0 where
  pub id : ℕ
  pub name : Text
  pub starts_at : ℕ
  pub half_day_after_minutes : ℕ
  pub full_day_after_minutes : ℕ
  pub is_default : Bool
  pub deleted : Bool

pub record AttendancePunch : Type 0 where
  pub direction : Direction
  pub punched_at : ℕ

pub record AttendanceDay : Type 0 where
  pub employee : ℕ
  pub work_date : ℕ
  pub shift_id : Option ℕ
  pub status : AttendanceStatus
  pub work_mode : Option WorkMode
  pub source : AttendanceSource
  pub first_in : Option ℕ
  pub last_out : Option ℕ
  pub work_minutes : ℕ
  pub late_minutes : ℕ
  pub locked : Bool
  pub punches : List AttendancePunch

pub record AttendanceRegularization : Type 0 where
  pub id : ℕ
  pub employee : ℕ
  pub work_date : ℕ
  pub requested_status : AttendanceStatus
  pub requested_in : Option ℕ
  pub requested_out : Option ℕ
  pub requested_work_mode : Option WorkMode
  pub status : RegularizationStatus

pub record State : Type 0 where
  pub days : List AttendanceDay
  pub shifts : List Shift
  pub requests : List AttendanceRegularization

abbrev pub is_in : AttendancePunch → Bool
is_in p = is_in_direction p.direction
  where
    is_in_direction : Direction → Bool
    is_in_direction go_in = true
    is_in_direction go_out = false

-- `sorted(punches, key=punched_at)`, which keeps the order of equal times.
abbrev pub insert_punch : AttendancePunch → List AttendancePunch → List AttendancePunch
insert_punch p [] = p ∷ []
insert_punch p (q ∷ qs) =
    let rest = insert_punch p qs in if leb p.punched_at q.punched_at then p ∷ q ∷ qs else q ∷ rest

abbrev pub sort_punches : List AttendancePunch → List AttendancePunch
sort_punches [] = []
sort_punches (p ∷ ps) = insert_punch p (sort_punches ps)

abbrev pub first_time : List AttendancePunch → Option ℕ
first_time [] = none
first_time (p ∷ ps) = some p.punched_at

abbrev pub last_time : List AttendancePunch → Option ℕ
last_time [] = none
last_time (p ∷ []) = some p.punched_at
last_time (p ∷ q ∷ ps) = last_time (q ∷ ps)

abbrev pub or_open : Option ℕ → ℕ → Option ℕ
or_open none at = some at
or_open (some first) at = some first

abbrev pub worked_until : ℕ → Option ℕ → ℕ → ℕ
worked_until worked none at = worked
worked_until worked (some first) at = worked + (at - first)

-- The loop over the sorted punches: the time worked and the open in.
unfoldable pub work_loop : List AttendancePunch → ℕ → Option ℕ → ℕ
work_loop [] worked open_in = worked
work_loop (p ∷ ps) worked open_in =
    if is_in p
    then work_loop ps worked (or_open open_in p.punched_at)
    else work_loop ps (worked_until worked open_in p.punched_at) none

unfoldable pub worked_seconds : List AttendancePunch → ℕ
worked_seconds punches = work_loop (sort_punches punches) 0 none

-- The status by the thresholds of a shift.
abbrev pub status_by : Shift → ℕ → Option ℕ → AttendanceStatus
status_by shift minutes last_out =
    if leb shift.full_day_after_minutes minutes
    then present
    else if leb shift.half_day_after_minutes minutes
    then half_day
    else if is_some last_out
    then absent
    else present

abbrev pub timed : Option Shift → Option ℕ → AttendanceDay → AttendanceDay
timed _ none day = day
timed none (some first) day = record day { status = present }
timed (some shift) (some first) day = record day {
  late_minutes = (first - (86400 * day.work_date + shift.starts_at)) / 60;
  status = status_by shift day.work_minutes day.last_out;
}

unfoldable pub recompute : AttendanceDay → List AttendancePunch → Option Shift → AttendanceDay
recompute day punches shift =
    let ordered = sort_punches punches in
    let first = first_time (select is_in ordered) in
    timed shift first (record day {
      first_in = first;
      last_out = last_time (select (λ p. not (is_in p)) ordered);
      work_minutes = worked_seconds punches / 60;
    })
