-- ===== src/Calendar/Examples.antt =====
-- A calendar with one holiday.
use croar_backend_new.Prelude.{ℕ, ◌+◌, All, contains, length, ◌≡◌, refl, true, false, List, [], ◌∷◌}
use croar_backend_new.Http.{ok, raise, conflict}
use croar_backend_new.Calendar.{
  Holiday, Report, live_dates, WorkCalendarConfig, is_working_day, count_days, holiday_dates,
  mark_deleted, year_of, working_days_in_period, create_holiday, delete_holiday, import_holidays,
  kept, plan, add_row, skip, insert_all, report,
}
use croar_backend_new.Calendar.Served.{import_holidays_served}

-- 26 January 2026, a Monday.
abbrev republic_day : Holiday
republic_day = record { id = 1; company = 7; date = 739_642; deleted = false }

abbrev office : WorkCalendarConfig
office = record {
  use_calendar_working_days = true;
  weekly_offs = 5 ∷ 6 ∷ [];
  enforce_maker_checker = true;
}

republic_day_year : year_of 739_642 ≡ 2026
unfolding year_of
republic_day_year = refl

new_year_eve : year_of 739_616 ≡ 2025
unfolding year_of
new_year_eve = refl

-- January 2026 has 22 weekdays.
january : working_days_in_period office 7 (republic_day ∷ []) 739_617 739_647 ≡ 21
unfolding working_days_in_period count_days is_working_day holiday_dates
january = refl

-- The second of the two rows is skipped.
imported :
    import_holidays 7 ((2, 739_650) ∷ (3, 739_642) ∷ []) false (republic_day ∷ [])
    ≡ ok (
      record { id = 2; company = 7; date = 739_650; deleted = false } ∷ republic_day ∷ [],
      record { created = 1; skipped = 739_642 ∷ []; replaced = 0 },
    )
unfolding import_holidays kept plan add_row skip insert_all report
imported = refl

-- A file with the same date twice and a date that there is.
abbrev file : List (ℕ × ℕ)
file = (2, 739_650) ∷ (3, 739_650) ∷ (4, 739_642) ∷ []

import_holidays_served_example :
    (after : List Holiday) × (r : Report) × (import_holidays 7 file false (republic_day ∷ [])
      ≡ ok (after, r))
    × All (λ row. contains row.1 (live_dates 7 after) ≡ true) file
    × (r.created + length r.skipped ≡ 3)
import_holidays_served_example = import_holidays_served 7 file false (republic_day ∷ []) refl

abbrev two_days : List Holiday
two_days = record { id = 2; company = 7; date = 739_650; deleted = false } ∷ republic_day ∷ []

second_day : create_holiday 2 7 739_650 (republic_day ∷ []) ≡ ok two_days
unfolding create_holiday
second_day = refl

-- A deleted holiday still blocks its date.
deleted_date :
    (delete_holiday 1 7 (republic_day ∷ []) ≡ ok (mark_deleted republic_day ∷ []))
    × (create_holiday 9 7 739_642 (mark_deleted republic_day ∷ []) ≡ raise conflict)
unfolding create_holiday delete_holiday
deleted_date = (refl, refl)
