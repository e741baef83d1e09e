-- ===== src/Interview.antt =====
-- app/services/enterprise/interview_service.py: the slot that an automation gives to a candidate's
-- interview. A date is its ordinal, a datetime the seconds since the ordinal 0, a time of day its
-- minutes; scheduled times are whole seconds. The table of interviews is the list of its rows, and
-- today is an argument. The meeting link and the e-mails are left out; the
-- log of the e-mails is in the state of Automation.
pub mod Slots
pub mod Search
pub mod Schedule
mod Examples
use Prim.Native.String.{String}
use croar_backend_new.Prelude.{
  ℕ, zero, suc, ◌+◌, ◌-◌, ◌*◌, Bool, true, false, not, ◌&&◌, ◌||◌, Option, none, some, List, [],
  ◌∷◌, map, length, select, find_first, any, ◌==◌, ltb, leb, if◌then◌else◌,
}
use croar_backend_new.Prelude.Int.{ℤ, pos, negsuc}
use croar_backend_new.Text.{Text}
use croar_backend_new.Text.Numbers.{read_int, part, after_colon}
use croar_backend_new.Calendar.{weekday}

abbrev pub time_or_nine : Option ℕ → Option ℕ → ℕ
time_or_nine (some h) (some m) = if ltb h 24 && ltb m 60 then 60 * h + m else 540
time_or_nine _ _ = 540

abbrev pub minute_part : Option Text → Option ℕ
minute_part none = none
minute_part (some t) = read_int (part t)

unfoldable pub parse_time : Text → ℕ
parse_time t = time_or_nine (read_int (part t)) (minute_part (after_colon t))

pub record InterviewAutomation : Type 0 where
  pub id : ℕ
  pub start_date : Option ℕ
  pub end_date : Option ℕ
  pub start_time : Text
  pub end_time : Text
  pub duration : ℤ
  pub daily_limit : ℤ
  pub time_slots : List Text

pub record InterviewSchedule : Type 0 where
  pub automation_id : ℕ
  pub application_id : ℕ
  pub scheduled_time : ℕ

-- `max(1, value or default)`
abbrev pub at_least_one : ℤ → ℕ → ℕ
at_least_one (pos zero) default = default
at_least_one (pos (suc n)) default = suc n
at_least_one (negsuc n) default = 1

unfoldable pub duration_of : InterviewAutomation → ℕ
duration_of a = at_least_one a.duration 30

unfoldable pub limit_of : InterviewAutomation → ℕ
limit_of a = at_least_one a.daily_limit 1

-- `custom_times.sort()`
abbrev pub insert_time : ℕ → List ℕ → List ℕ
insert_time t [] = t ∷ []
insert_time t (u ∷ us) = let rest = insert_time t us in if leb t u then t ∷ u ∷ us else u ∷ rest

abbrev pub sort_times : List ℕ → List ℕ
sort_times [] = []
sort_times (t ∷ ts) = insert_time t (sort_times ts)

unfoldable pub custom_times : InterviewAutomation → List ℕ
custom_times a = sort_times (map parse_time a.time_slots)

-- `datetime.combine(day, time)`
abbrev pub combine : ℕ → ℕ → ℕ
combine day minutes = 86400 * day + 60 * minutes

abbrev or_later : ℕ → Option ℕ → ℕ
or_later day none = day
or_later day (some start) = if ltb day start then start else day

unfoldable pub start_day : ℕ → InterviewAutomation → ℕ
start_day today a = or_later (today + 1) a.start_date

abbrev end_or_default : ℕ → Option ℕ → ℕ
end_or_default start none = start + 60
end_or_default start (some last) = if leb start last then last else start + 60

unfoldable pub end_day : ℕ → InterviewAutomation → ℕ
end_day today a = end_or_default (start_day today a) a.end_date

-- The interviews on a date, from its first to its last second.
abbrev pub on_day : ℕ → ℕ → Bool
on_day day dt = leb (86400 * day) dt && leb dt (86400 * day + 86399)

abbrev pub abs_diff : ℕ → ℕ → ℕ
abs_diff a b = if leb a b then b - a else a - b

unfoldable pub clash : ℕ → List ℕ → ℕ → Bool
clash duration existing_times c = any (λ et. ltb (abs_diff et c) (duration * 60)) existing_times

-- The loop over the times that follow each other by the duration.
unfoldable pub slot_loop : ℕ → ℕ → List ℕ → ℕ → ℕ → Option ℕ
slot_loop zero duration existing_times limit c = none
slot_loop (suc fuel) duration existing_times limit c =
    let next = slot_loop fuel duration existing_times limit (c + 60 * duration) in
    if leb (c + 60 * duration) limit
    then if clash duration existing_times c then next else some c
    else none

-- A day has 1440 minutes, so the loop makes no more rounds.
abbrev pub rounds : ℕ
rounds = 1440

-- The first time of the date that is free.
unfoldable pub free_time : InterviewAutomation → List ℕ → ℕ → List ℕ → Option ℕ
free_time a existing_times day [] =
    slot_loop rounds (duration_of a) existing_times (combine day (parse_time a.end_time))
      (combine day (parse_time a.start_time))
free_time a existing_times day (t ∷ ts) =
    find_first (λ c. not (clash (duration_of a) existing_times c)) (map (combine day) (t ∷ ts))

-- One round of the loop over the dates.
unfoldable pub day_slot : InterviewAutomation → List ℕ → ℕ → Option ℕ
day_slot a existing day =
    if leb 5 (weekday day)
    then none
    else if ltb (length (select (on_day day) existing)) (limit_of a)
    then free_time a (select (on_day day) existing) day (custom_times a)
    else none

abbrev pub or_next : Option ℕ → Option ℕ → Option ℕ
or_next none next = next
or_next (some c) next = some c

-- The loop over the dates, with the number of days that it may still check.
unfoldable pub day_loop : ℕ → InterviewAutomation → List ℕ → ℕ → ℕ → Option ℕ
day_loop zero a existing end_d day = none
day_loop (suc left) a existing end_d day =
    let next = day_loop left a existing end_d (day + 1) in
    if leb day end_d then or_next (day_slot a existing day) next else none

unfoldable pub search : ℕ → InterviewAutomation → List ℕ → Option ℕ
search today a existing = day_loop 60 a existing (end_day today a) (start_day today a)

abbrev first_time : InterviewAutomation → List ℕ → ℕ
first_time a [] = parse_time a.start_time
first_time a (t ∷ ts) = t

unfoldable pub fallback : ℕ → InterviewAutomation → ℕ
fallback today a = combine (end_day today a + 1) (first_time a (custom_times a))

abbrev pub or_fallback : Option ℕ → ℕ → ℕ
or_fallback none f = f
or_fallback (some c) f = c

-- `existing` are the scheduled times of the automation's interviews.
unfoldable pub find_available_slot : ℕ → InterviewAutomation → List ℕ → ℕ
find_available_slot today a existing = or_fallback (search today a existing) (fallback today a)

abbrev pub times_of : ℕ → List InterviewSchedule → List ℕ
times_of automation table =
    map (λ r. r.scheduled_time) (select (λ r. r.automation_id == automation) table)

abbrev pub is_scheduled : ℕ → ℕ → List InterviewSchedule → Bool
is_scheduled automation application =
    any (λ r. r.application_id == application && r.automation_id == automation)

-- `known` says that the candidate and the job of the application are found. Nothing is scheduled
-- without them or for an application that has an interview.
unfoldable pub schedule_candidate_interview :
    ℕ → InterviewAutomation → ℕ → Bool → List InterviewSchedule → List InterviewSchedule
schedule_candidate_interview today a application known table =
    if is_scheduled a.id application table
    then table
    else if not known
    then table
    else record {
      automation_id = a.id;
      application_id = application;
      scheduled_time = find_available_slot today a (times_of a.id table);
    }
      ∷ table
