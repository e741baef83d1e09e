-- ===== src/Interview/Search.antt =====
-- The search over the dates, and what the slot that it finds is worth.
use mathlib.Core.Path.{subst}
use croar_backend_new.Prelude.{
  ℕ, zero, suc, ◌+◌, ◌*◌, ◌≤◌, ◌<◌, ◌≡◌, refl, ◌∙◌, ◌==◌, true, false, Option, none, some, List, [],
  ◌∷◌, ◌⊎◌, inl, inr, All, Bool-cases, Option-cases, ltb, leb, contains, arith, select, length,
}
use croar_backend_new.Prelude.Int.{ℤ, pos, negsuc}
use croar_backend_new.Text.{Text}
use croar_backend_new.Text.Numbers.{read_int, part, after_colon}
use croar_backend_new.Calendar.{weekday}
use croar_backend_new.Interview.{
  InterviewAutomation, duration_of, limit_of, parse_time, custom_times, combine, on_day, abs_diff,
  clash, rounds, slot_loop, free_time, day_slot, day_loop, start_day, end_day, search, fallback,
  find_available_slot, at_least_one, time_or_nine, minute_part,
}
use croar_backend_new.Interview.Slots.{
  clash-false, clash-true, nth, slot_loop-some, slot_loop-none, slot_loop-same, find_first-some,
  find_first-none,
}

-- A time that the automation offers on a date: a custom time, or, where there are none, one of those
-- that follow the start by whole durations and end by the end.
pub data Offered (a : InterviewAutomation) (day c : ℕ) : Type 0 where
  custom : (t : ℕ) → contains t (custom_times a) ≡ true → c ≡ combine day t → Offered a day c
  regular :
      (k : ℕ)
      → custom_times a ≡ []
      → c ≡ nth (combine day (parse_time a.start_time)) (duration_of a) k
      → c + 60 * duration_of a ≤ combine day (parse_time a.end_time)
      → Offered a day c

-- The duration or more from every one of the interviews.
abbrev pub Apart : InterviewAutomation → ℕ → List ℕ → Type 0
Apart a c existing = All (λ et. duration_of a * 60 ≤ abs_diff et c) existing

abbrev pub IsBookable : InterviewAutomation → List ℕ → ℕ → ℕ → Type 0
IsBookable a existing day c =
    (weekday day < 5)
    × (length (select (on_day day) existing) < limit_of a)
    × Offered a day c
    × Apart a c (select (on_day day) existing)

time_or_nine-lt : (h m : Option ℕ) → time_or_nine h m < 1440
time_or_nine-lt none m = omega arith
time_or_nine-lt (some h) none = omega arith
time_or_nine-lt (some h) (some m) = ground arith

pub parse_time-lt : (t : Text) → parse_time t < 1440
unfolding parse_time
parse_time-lt t = time_or_nine-lt (read_int (part t)) (minute_part (after_colon t))

at_least_one_pos : (n : ℤ) (default : ℕ) → 0 < default → 0 < at_least_one n default
at_least_one_pos (pos zero) default h = h
at_least_one_pos (pos (suc n)) default h = omega arith
at_least_one_pos (negsuc n) default h = omega arith

duration_pos : (a : InterviewAutomation) → 0 < duration_of a
unfolding duration_of
duration_pos a = at_least_one_pos a.duration 30 (omega arith)

-- The rounds of a day are enough, whatever the times and the duration.
rounds_enough :
    (start last day duration fuel : ℕ)
    → last < 1440
    → 0 < duration
    → rounds ≤ fuel
    → combine day last < combine day start + (fuel + 1) * (60 * duration)
rounds_enough start last day zero fuel h p q = absurd (omega arith)
rounds_enough start last day (suc d) fuel h p q = grind arith

-- For every automation, list of existing times and date, the loop over the times of the date answers
-- with any number of rounds from `rounds` on what it answers with `rounds`.
pub slot_loop-rounds :
    (a : InterviewAutomation) (existing : List ℕ) (day fuel : ℕ)
    → rounds ≤ fuel
    → slot_loop fuel
        (duration_of a)
        existing
        (combine day (parse_time a.end_time))
        (combine day (parse_time a.start_time))
      ≡ slot_loop rounds
          (duration_of a)
          existing
          (combine day (parse_time a.end_time))
          (combine day (parse_time a.start_time))
slot_loop-rounds a existing day fuel h =
    let lt = parse_time-lt a.end_time in
    let p = duration_pos a in
    slot_loop-same (duration_of a) existing _ fuel rounds _ (rounds_enough _ _ day _ fuel lt p h)
      (rounds_enough _ _ day _ rounds lt p (omega arith))

-- `custom_times` under a name, for the clauses of `free_time`.
free_time-some :
    (a : InterviewAutomation) (times : List ℕ) (day c : ℕ) (custom : List ℕ)
    → custom_times a ≡ custom
    → free_time a times day custom ≡ some c
    → Offered a day c × Apart a c times
unfolding free_time
free_time-some a times day c [] e h =
    let r = slot_loop-some (duration_of a) times _ rounds _ c h in
    (regular r.0 e r.1 r.2, clash-false (duration_of a) times c r.3)
free_time-some a times day c (t ∷ ts) e h =
    let r = find_first-some (clash (duration_of a) times) (combine day) (t ∷ ts) c h in
    (custom r.0 (rw e r.1) r.2, clash-false (duration_of a) times c r.3)

free_time-none :
    (a : InterviewAutomation) (times : List ℕ) (day c : ℕ) (custom : List ℕ)
    → custom_times a ≡ custom
    → free_time a times day custom ≡ none
    → Offered a day c
    → ¬ Apart a c times
unfolding free_time
free_time-none a times day c [] e h (custom t m q) = absurd (ground (arith, e, m))
free_time-none a times day c [] e h (regular k _ q fits) =
    let p = duration_pos a in
    let lt = parse_time-lt a.end_time in
    clash-true (duration_of a) times c (
      rw q (
        slot_loop-none (duration_of a) times _ rounds _
          (rounds_enough _ _ day _ rounds lt p (omega arith)) h k (rw (← q) fits)))
free_time-none a times day c (t ∷ ts) e h (custom u m q) = clash-true (duration_of a) times c (
    rw q (
      find_first-none (clash (duration_of a) times) (combine day) (t ∷ ts) h u
        (subst (λ l. contains u l ≡ true) e m)))
free_time-none a times day c (t ∷ ts) e h (regular k none_ q fits) = cc

module _ (a : InterviewAutomation) (existing : List ℕ) (day : ℕ) where
  day_slot-some : (c : ℕ) → day_slot a existing day ≡ some c → IsBookable a existing day c
  unfolding day_slot
  day_slot-some c h = elim (Bool-cases (leb 5 (weekday day))) [
    | inl y ↦ let never : none ≡ some c = rw (← h) (rw y refl) in cc
    | inr n ↦ elim (Bool-cases (ltb (length (select (on_day day) existing)) (limit_of a))) [
      | inr full ↦ let never : none ≡ some c = rw (← h) (rw n (rw full refl)) in cc
      | inl room ↦
          let r =
            free_time-some a (select (on_day day) existing) day c (custom_times a) refl
              (rw (← h) (rw n (rw room refl))) in
          (ground (arith, n), ground (arith, room), r.0, r.1)
    ]
  ]

  day_slot-none : (c : ℕ) → day_slot a existing day ≡ none → ¬ IsBookable a existing day c
  unfolding day_slot
  day_slot-none c h (week, room, offered, apart) =
      let n : leb 5 (weekday day) ≡ false = ground arith in
      let y : ltb (length (select (on_day day) existing)) (limit_of a) ≡ true = ground arith in
      free_time-none a (select (on_day day) existing) day c (custom_times a) refl
        (rw (← h) (rw n (rw y refl))) offered apart

module _ (a : InterviewAutomation) (existing : List ℕ) (end_d : ℕ) where
  day_loop-some :
      (left day c : ℕ)
      → day_loop left a existing end_d day ≡ some c
      → (d : ℕ) × (day ≤ d) × (d ≤ end_d) × IsBookable a existing d c
  unfolding day_loop
  day_loop-some zero day c h = cc
  day_loop-some (suc left) day c h = elim (Bool-cases (leb day end_d)) [
    | inr n ↦ let never : none ≡ some c = rw (← h) (rw n refl) in cc
    | inl y ↦ elim (Option-cases (day_slot a existing day)) [
      | inr (s, e) ↦
          let q : some s ≡ some c = rw (← h) (rw y (rw e refl)) in
          (day, omega arith, ground arith, day_slot-some a existing day c (e ∙ q))
      | inl e ↦
          let r = day_loop-some left (day + 1) c (rw (← h) (rw y (rw e refl))) in
          (r.0, omega (arith, r.1), r.2, r.3)
    ]
  ]

  day_loop-none :
      (left day : ℕ)
      → day_loop left a existing end_d day ≡ none
      → (d c : ℕ) → day ≤ d
      → d ≤ end_d
      → d < day + left
      → ¬ IsBookable a existing d c
  unfolding day_loop
  day_loop-none zero day h d c p q r = absurd (omega arith)
  day_loop-none (suc left) day h d c p q r =
      let y : leb day end_d ≡ true = ground arith in
      elim (Option-cases (day_slot a existing day)) [
        | inr (s, e) ↦ let never : some s ≡ none = rw (← h) (rw y (rw e refl)) in cc
        | inl e ↦ elim (Bool-cases (day == d)) [
          | inl same ↦ let k : day ≡ d = ground arith in rw (← k) (day_slot-none a existing day c e)
          | inr other ↦
              day_loop-none left (day + 1) (rw (← h) (rw y (rw e refl))) d c (ground (arith, other))
                q (omega arith)
        ]
      ]

-- For every date of today, automation and list of its existing times, the slot that is found either
-- stands on a date from the first to the last day of the search, from Monday to Friday, with fewer
-- interviews than the daily limit, at a time that the automation offers on that date and that is the
-- duration or more away from every interview of that date; or it is the fallback, and no date of the
-- search, within 60 days of its first, has such a time.
pub find_available_slot_lem :
    (today : ℕ) (a : InterviewAutomation) (existing : List ℕ)
    → ((d : ℕ) × (start_day today a ≤ d)
        × (d ≤ end_day today a)
        × IsBookable a existing d (find_available_slot today a existing))
      ⊎ ((find_available_slot today a existing ≡ fallback today a)
          × ((d c : ℕ)
              → start_day today a ≤ d
              → d ≤ end_day today a
              → d < start_day today a + 60
              → ¬ IsBookable a existing d c))
unfolding find_available_slot search
find_available_slot_lem today a existing =
    elim (Option-cases (day_loop 60 a existing (end_day today a) (start_day today a))) [
      | inr (s, e) ↦ rw e (inl (day_loop-some a existing (end_day today a) 60 _ s e))
      | inl e ↦ rw e (inr (refl, day_loop-none a existing (end_day today a) 60 _ e))
    ]
