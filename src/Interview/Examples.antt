-- ===== src/Interview/Examples.antt =====
-- An automation with two interviews a day, of half an hour each.
use croar_backend_new.Prelude.{
  ℕ, ◌+◌, ◌-◌, ◌≤◌, ◌<◌, ◌≡◌, ◌≢◌, refl, true, some, none, List, [], ◌∷◌, ◌⊎◌, arith,
}
use croar_backend_new.Prelude.Int.{pos}
use croar_backend_new.Text.{codes}
use croar_backend_new.Interview.{
  InterviewAutomation, InterviewSchedule, parse_time, combine, start_day, end_day, fallback, search,
  find_available_slot, times_of, schedule_candidate_interview, slot_loop, day_loop, day_slot,
  free_time, custom_times, duration_of, limit_of, clash,
}
use croar_backend_new.Interview.Search.{IsBookable, find_available_slot_lem}
use croar_backend_new.Interview.Schedule.{IsSpaced, schedule_candidate_interview-IsSpaced}

times :
    (parse_time (codes "09:30") ≡ 570)
    × (parse_time (codes " 7:05:59") ≡ 425)
    × (parse_time (codes "24:00") ≡ 540)
    × (parse_time (codes "noon") ≡ 540)
unfolding parse_time
times = (refl, refl, refl, refl)

-- 26 January 2026 is a Monday.
abbrev monday : ℕ
monday = 739_642

abbrev screening : InterviewAutomation
screening = record {
  id = 1;
  start_date = none;
  end_date = some (monday + 1);
  start_time = codes "09:00";
  end_time = codes "10:00";
  duration = pos 30;
  daily_limit = pos 2;
  time_slots = [];
}

abbrev booked : InterviewSchedule
booked = record { automation_id = 1; application_id = 5; scheduled_time = combine monday 540 }

program : Unit {0}
unfolding parse_time find_available_slot search day_loop day_slot free_time slot_loop custom_times
    duration_of limit_of clash start_day end_day fallback schedule_candidate_interview
program = tt

-- From Sunday on, the second half hour of Monday.
second_slot :
    find_available_slot (monday - 1) screening (combine monday 540 ∷ []) ≡ combine monday 570
unfolding program
second_slot = refl

-- Tuesday, once Monday has its two interviews; Wednesday, beyond the last day, once both are full,
-- and the same time again for the next candidate.
tuesday_slot :
    find_available_slot (monday - 1) screening (combine monday 540 ∷ combine monday 600 ∷ [])
    ≡ combine (monday + 1) 540
unfolding program
tuesday_slot = refl

abbrev full : List ℕ
full =
    combine monday 540
    ∷ combine monday 570
    ∷ combine (monday + 1) 540
    ∷ combine (monday + 1) 570
    ∷ []

beyond :
    (find_available_slot (monday - 1) screening full ≡ combine (monday + 2) 540)
    × (find_available_slot (monday - 1) screening (combine (monday + 2) 540 ∷ full)
        ≡ combine (monday + 2) 540)
unfolding program
beyond = (refl, refl)

find_available_slot_lem_example :
    ((d : ℕ) × (start_day (monday - 1) screening ≤ d)
      × (d ≤ end_day (monday - 1) screening)
      × IsBookable screening
          (combine monday 540 ∷ [])
          d
          (find_available_slot (monday - 1) screening (combine monday 540 ∷ [])))
    ⊎ ((find_available_slot (monday - 1) screening (combine monday 540 ∷ [])
          ≡ fallback (monday - 1) screening)
        × ((d c : ℕ)
            → start_day (monday - 1) screening ≤ d
            → d ≤ end_day (monday - 1) screening
            → d < start_day (monday - 1) screening + 60
            → ¬ IsBookable screening (combine monday 540 ∷ []) d c))
find_available_slot_lem_example =
    find_available_slot_lem (monday - 1) screening (combine monday 540 ∷ [])

not_fallback :
    find_available_slot (monday - 1) screening (times_of 1 (booked ∷ []))
    ≢ fallback (monday - 1) screening
unfolding program
not_fallback h = absurd (omega arith)

schedule_candidate_interview-IsSpaced_example :
    IsSpaced screening
      (times_of 1 (schedule_candidate_interview (monday - 1) screening 6 true (booked ∷ [])))
schedule_candidate_interview-IsSpaced_example =
    schedule_candidate_interview-IsSpaced (monday - 1) screening 6 true (booked ∷ []) not_fallback
      (λ d h. tt, tt)
