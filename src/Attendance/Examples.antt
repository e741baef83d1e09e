-- ===== src/Attendance/Examples.antt =====
-- A day with a lunch break, corrected and then locked.
use croar_backend_new.Prelude.{ℕ, ◌+◌, ◌*◌, ◌≡◌, refl, true, false, some, none, List, [], ◌∷◌, map}
use croar_backend_new.Text.{codes}
use croar_backend_new.Http.{Outcome, ok, raise, bad_request, conflict, then_ok}
use croar_backend_new.Attendance.{
  AttendancePunch, AttendanceDay, Shift, State, present, absent, half_day, web, manual, go_in,
  go_out, sort_punches, work_loop, worked_seconds, recompute,
}
use croar_backend_new.Attendance.Days.{PunchIn, change_day, new_day, punch}
use croar_backend_new.Attendance.Requests.{
  MarkIn, RegularizationIn, approve, mark_day, request_regularization, decide_regularization,
}
use croar_backend_new.Attendance.Shifts.{
  ShiftIn, create_shift, update_shift, delete_shift, clear_default,
}
use croar_backend_new.Attendance.Punches.{time_at_work, worked_seconds_lem}

abbrev monday : ℕ
monday = 739_642

abbrev at : ℕ → ℕ
at minute = 86400 * monday + 60 * minute

abbrev general : Shift
general = record {
  id = 1;
  name = codes "General";
  starts_at = 32_400;
  half_day_after_minutes = 240;
  full_day_after_minutes = 480;
  is_default = true;
  deleted = false;
}

abbrev go : ℕ → AttendancePunch
go minute = record { direction = go_in; punched_at = at minute }

abbrev leave_at : ℕ → AttendancePunch
leave_at minute = record { direction = go_out; punched_at = at minute }

-- In at nine, twice, out at noon, in at one, out at six, and in again at seven.
abbrev punches : List AttendancePunch
punches = leave_at 720 ∷ go 540 ∷ go 541 ∷ go 780 ∷ leave_at 1080 ∷ go 1140 ∷ []

program : Unit {0}
unfolding work_loop worked_seconds recompute change_day punch mark_day request_regularization
    decide_regularization create_shift update_shift delete_shift clear_default
program = tt

eight_hours : worked_seconds punches ≡ 28_800
unfolding program
eight_hours = refl

abbrev in_at : PunchIn
in_at = record { direction = go_in; work_mode = none; source = web; at = at 550 }

abbrev out_at : PunchIn
out_at = record { direction = go_out; work_mode = none; source = web; at = at 800 }

abbrev again : PunchIn
again = record { direction = go_in; work_mode = none; source = web; at = at 805 }

abbrev empty : State
empty = record { days = []; shifts = general ∷ []; requests = [] }

abbrev three : Outcome State
three =
    then_ok (then_ok (punch (some 7) in_at empty) (punch (some 7) out_at)) (punch (some 7) again)

-- Ten minutes late, in for 250 minutes: half a day.
after_three :
    (then_ok three (λ s. ok (map (λ d. d.status) s.days)) ≡ ok (half_day ∷ []))
    × (then_ok three (λ s. ok (map (λ d. d.work_minutes) s.days)) ≡ ok (250 ∷ []))
    × (then_ok three (λ s. ok (map (λ d. d.late_minutes) s.days)) ≡ ok (10 ∷ []))
unfolding program
after_three = (refl, refl, refl)

-- Somebody who is back in after an early first out counts as absent.
back_in :
    then_ok
      (then_ok
        (then_ok (punch (some 7) in_at empty) (punch (some 7) (record out_at { at = at 560 })))
        (punch (some 7) again))
      (λ s. ok (map (λ d. d.status) s.days))
    ≡ ok (absent ∷ [])
unfolding program
back_in = refl

-- An update accepts thresholds that the creation refuses.
abbrev reversed : ShiftIn
reversed = record {
  name = codes "General";
  starts_at = 32_400;
  half_day_after_minutes = 500;
  full_day_after_minutes = 480;
  is_default = true;
}

thresholds :
    (create_shift 2 reversed empty ≡ raise bad_request)
    × (then_ok
          (update_shift 1 reversed empty)
          (λ s. ok (map (λ t. t.half_day_after_minutes) s.shifts))
        ≡ ok (500 ∷ []))
unfolding program
thresholds = (refl, refl)

-- A request for a locked day is accepted, and its approval refused.
abbrev sunday_locked : AttendanceDay
sunday_locked = record (new_day 7 (monday + 6)) { locked = true }

abbrev request : RegularizationIn
request = record {
  work_date = monday + 6;
  requested_status = present;
  requested_in = none;
  requested_out = none;
  requested_work_mode = none;
}

locked_request :
    then_ok
      (request_regularization
        (monday + 7)
        3
        (some 7)
        request
        (record empty { days = sunday_locked ∷ [] }))
      (decide_regularization 3 approve)
    ≡ raise conflict
unfolding program
locked_request = refl

worked_seconds_lem_example : worked_seconds punches ≡ time_at_work (sort_punches punches)
worked_seconds_lem_example = worked_seconds_lem punches

abbrev mark : MarkIn
mark = record {
  work_date = monday;
  status = present;
  work_mode = none;
  shift_id = none;
  first_in = none;
  last_out = none;
}

abbrev marked_state : Outcome State
marked_state = mark_day (some 7) mark (record empty { days = sunday_locked ∷ [] })

abbrev marked_days : State
marked_days = record empty {
  days = (record (new_day 7 monday) { status = present; source = manual }) ∷ sunday_locked ∷ [];
}

marks : marked_state ≡ ok marked_days
unfolding program
marks = refl
