-- ===== src/Interview/Schedule.antt =====
-- What holds of the table of interviews while `schedule_candidate_interview` adds to it.
use croar_backend_new.Prelude.{
  ℕ, ◌+◌, ◌*◌, ◌≤◌, ◌<◌, ◌≡◌, ◌≢◌, refl, Bool, true, List, [], ◌∷◌, inl, inr, All, Bool-cases, leb,
  ◌==◌, arith, select, map, contains,
}
use croar_backend_new.Text.{Text}
use croar_backend_new.Interview.{
  InterviewAutomation, InterviewSchedule, on_day, fallback, parse_time, custom_times, insert_time,
  sort_times, find_available_slot, times_of, is_scheduled, schedule_candidate_interview,
}
use croar_backend_new.Interview.Search.{
  Offered, custom, regular, IsBookable, Apart, find_available_slot_lem, parse_time-lt,
}

-- On every date, each time stands the duration or more from the earlier ones.
abbrev pub IsSpaced : InterviewAutomation → List ℕ → Type 0
IsSpaced a [] = Unit
IsSpaced a (c ∷ times) =
    ((d : ℕ) → on_day d c ≡ true → Apart a c (select (on_day d) times)) × IsSpaced a times

insert_time-All :
    (t : ℕ) (us : List ℕ)
    → t < 1440
    → All (λ u. u < 1440) us
    → All (λ u. u < 1440) (insert_time t us)
insert_time-All t [] h all = (h, tt)
insert_time-All t (u ∷ us) h (here, all) = elim (Bool-cases (leb t u)) [
  | inl y ↦ rw y (h, (here, all))
  | inr n ↦ rw n (here, insert_time-All t us h all)
]

sort_times-All : (ts : List Text) → All (λ u. u < 1440) (sort_times (map parse_time ts))
sort_times-All [] = tt
sort_times-All (t ∷ ts) = insert_time-All (parse_time t) _ (parse_time-lt t) (sort_times-All ts)

All-contains : (t : ℕ) (us : List ℕ) → All (λ u. u < 1440) us → contains t us ≡ true → t < 1440
All-contains t [] all h = absurd (ground arith)
All-contains t (u ∷ us) (here, all) h = elim (Bool-cases (t == u)) [
  | inl y ↦ ground arith
  | inr n ↦ All-contains t us all (rw (← h) (rw n refl))
]

-- A time that is offered on a date stands on that date, and on no other.
Offered-on_day :
    (a : InterviewAutomation) (day c : ℕ)
    → Offered a day c
    → (86400 * day ≤ c) × (c < 86400 * day + 86400)
unfolding custom_times
Offered-on_day a day c (custom t m e) =
    let lt : t < 1440 = All-contains t _ (sort_times-All a.time_slots) m in
    (omega arith, omega arith)
Offered-on_day a day c (regular k _ e fits) =
    let lt = parse_time-lt a.end_time in (omega arith, omega arith)

same_day :
    (day d c : ℕ) → (86400 * day ≤ c) × (c < 86400 * day + 86400) → on_day d c ≡ true → d ≡ day
same_day day d c (from, to) h = ground arith

IsBookable-IsSpaced :
    (a : InterviewAutomation) (times : List ℕ) (day c : ℕ)
    → IsBookable a times day c
    → IsSpaced a times
    → IsSpaced a (c ∷ times)
IsBookable-IsSpaced a times day c (week, room, offered, apart) spaced =
    (λ d h. let e = same_day day d c (Offered-on_day a day c offered) h in rw e apart, spaced)

find_available_slot-IsSpaced :
    (today : ℕ) (a : InterviewAutomation) (times : List ℕ)
    → find_available_slot today a times ≢ fallback today a
    → IsSpaced a times
    → IsSpaced a (find_available_slot today a times ∷ times)
find_available_slot-IsSpaced today a times other spaced =
    elim (find_available_slot_lem today a times) [
      | inl (d, _, _, book) ↦ IsBookable-IsSpaced a times d _ book spaced
      | inr (e, _) ↦ absurd (other e)
    ]

-- Scheduling an interview of the automation, for any application, keeps it true that on every date
-- two interviews of the automation are its duration or more apart, provided that the search finds a
-- slot other than the fallback.
pub schedule_candidate_interview-IsSpaced :
    (today : ℕ) (a : InterviewAutomation) (application : ℕ) (known : Bool)
    (table : List InterviewSchedule)
    → find_available_slot today a (times_of a.id table) ≢ fallback today a
    → IsSpaced a (times_of a.id table)
    → IsSpaced a (times_of a.id (schedule_candidate_interview today a application known table))
unfolding schedule_candidate_interview
schedule_candidate_interview-IsSpaced today a application known table other spaced =
    elim (Bool-cases (is_scheduled a.id application table)) [
      | inl y ↦ rw y spaced
      | inr n ↦ elim (Bool-cases known) [
        | inr k ↦ rw n (rw k spaced)
        | inl k ↦
            rw n (
              rw k
                (own _ (find_available_slot-IsSpaced today a (times_of a.id table) other spaced)))
      ]
    ]
  where
    self : (a.id == a.id) ≡ true
    self = ground arith

    own :
        (c : ℕ)
        → IsSpaced a (c ∷ times_of a.id table)
        → IsSpaced a (
            times_of a.id (
              record { automation_id = a.id; application_id = application; scheduled_time = c }
              ∷ table))
    own c s = rw self s
