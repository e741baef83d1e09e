-- ===== src/Calendar/Count.antt =====
-- The count of working days.
use croar_backend_new.Prelude.{
  ℕ, zero, suc, ◌+◌, ◌-◌, ◌≤◌, ◌≡◌, refl, Bool, true, Bool-cases, inl, inr, List, [], ◌∷◌, length,
  select, ltb, if◌then◌else◌, arith, ◌⊎◌, select_yes, select_no,
}
use croar_backend_new.Calendar.{
  Holiday, WorkCalendarConfig, is_working_day, days_from, days, count_days, working_days_in_period,
  holiday_dates,
}

count_days_lem :
    (n day : ℕ) (offs holidays : List ℕ) (count : ℕ)
    → count_days n day offs holidays count
      ≡ count + length (select (λ d. is_working_day d offs holidays) (days_from n day))
unfolding count_days days_from
count_days_lem zero day offs holidays count = omega arith
count_days_lem (suc n) day offs holidays count =
    elim (Bool-cases (is_working_day day offs holidays)) [
      | inl e ↦ rw (e, count_days_lem n (suc day) offs holidays (suc count)) (omega arith)
      | inr e ↦ rw (e, count_days_lem n (suc day) offs holidays count) refl
    ]

length-days_from : (n day : ℕ) → length (days_from n day) ≡ n
unfolding days_from
length-days_from zero day = refl
length-days_from (suc n) day = rw (length-days_from n (suc day)) refl

select_le : (p : ℕ → Bool) (xs : List ℕ) → length (select p xs) ≤ length xs
select_le p [] = omega arith
select_le p (x ∷ xs) = elim (Bool-cases (p x)) [
  | inl e ↦ rw (select_yes p x xs e) (omega (arith, select_le p xs))
  | inr e ↦ rw (select_no p x xs e) (omega (arith, select_le p xs))
]

count_days_le : (n day : ℕ) (offs holidays : List ℕ) → count_days n day offs holidays 0 ≤ n
count_days_le n day offs holidays = omega (
  arith,
  count_days_lem n day offs holidays 0,
  select_le (λ d. is_working_day d offs holidays) (days_from n day),
  length-days_from n day,
)

at_least_one : (c n : ℕ) → c ≤ n → let w = if ltb c 1 then 1 else c in (1 ≤ w) × ((w ≤ n) ⊎ (w ≡ 1))
at_least_one c n h = elim (Bool-cases (ltb c 1)) [
  | inl e ↦ rw e (omega arith, inr refl)
  | inr e ↦ rw e (ground arith, inl h)
]

-- With the calendar in use, the working days of a period are the days of the period that are
-- neither a weekly off nor a live holiday of the company, or one where there is none; they are
-- never more than the days of the period, unless that is the one.
pub working_days_in_period_lem :
    (cfg : WorkCalendarConfig) (company : ℕ) (table : List Holiday) (start last : ℕ)
    → cfg.use_calendar_working_days ≡ true
    → let holidays = holiday_dates company start last table in
      let worked = select (λ d. is_working_day d cfg.weekly_offs holidays) (days start last) in
      let count = working_days_in_period cfg company table start last in
      ((count ≡ length worked) ⊎ ((length worked ≡ 0) × (count ≡ 1)))
      × (1 ≤ count)
      × ((count ≤ suc last - start) ⊎ (count ≡ 1))
unfolding working_days_in_period
working_days_in_period_lem cfg company table start last h =
    let holidays = holiday_dates company start last table in
    let n = suc last - start in
    let c = count_days n start cfg.weekly_offs holidays 0 in
    let e = count_days_lem n start cfg.weekly_offs holidays 0 in
    let (low, high) = at_least_one c n (count_days_le n start cfg.weekly_offs holidays) in
    rw h (
      elim (Bool-cases (ltb c 1)) [
        | inl a ↦ rw a (inr (ground arith, refl))
        | inr a ↦ rw a (inl (omega (arith, e)))
      ],
      low,
      high,
    )
