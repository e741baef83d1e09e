-- ===== src/Calendar.antt =====
-- app/services/payroll/calendar_service.py: the company's holidays and the count of working days.
-- A date is its proleptic Gregorian ordinal, a day code is its place in WEEKDAY_CODES, and the table
-- of holidays is the list of its rows, the newest first; the id of a new row is an argument.
pub mod Count
pub mod Served
mod Examples
use croar_backend_new.Prelude.{
  ℕ, zero, suc, ◌+◌, ◌-◌, ◌*◌, ◌/◌, ◌%◌, Bool, true, false, not, ◌&&◌, ◌||◌, Option, none, some,
  List, [], ◌∷◌, map, length, select, find_first, update_where, contains, ◌==◌, ltb, if◌then◌else◌,
}
use croar_backend_new.Http.{
  Outcome, ok, conflict, not_found, server_error, raise_if, found_or, then_ok,
}

pub record Holiday : Type 0 where
  pub id : ℕ
  pub company : ℕ
  pub date : ℕ
  pub deleted : Bool

pub record WorkCalendarConfig : Type 0 where
  pub use_calendar_working_days : Bool
  pub weekly_offs : List ℕ
  pub enforce_maker_checker : Bool

-- `date.weekday()`: Monday is 0, and so is the ordinal 1.
abbrev pub weekday : ℕ → ℕ
weekday day = (day + 6) % 7

unfoldable pub is_working_day : ℕ → List ℕ → List ℕ → Bool
is_working_day day weekly_offs holidays =
    if contains (weekday day) weekly_offs then false else not (contains day holidays)

-- The n days from `day` on.
unfoldable pub days_from : ℕ → ℕ → List ℕ
days_from zero day = []
days_from (suc n) day = day ∷ days_from n (suc day)

-- The days that a loop from `start` while `day <= end` visits.
abbrev pub days : ℕ → ℕ → List ℕ
days start last = days_from (suc last - start) start

abbrev pub live : ℕ → Holiday → Bool
live company h = h.company == company && not h.deleted

unfoldable pub holiday_dates : ℕ → ℕ → ℕ → List Holiday → List ℕ
holiday_dates company start last table =
    map (λ h. h.date)
      (select (λ h. live company h && (not (ltb h.date start) && not (ltb last h.date))) table)

abbrev default_working_days : ℕ
default_working_days = 30

-- The loop of `working_days_in_period`, over `count`.
unfoldable pub count_days : ℕ → ℕ → List ℕ → List ℕ → ℕ → ℕ
count_days zero day weekly_offs holidays count = count
count_days (suc n) day weekly_offs holidays count =
    count_days n (suc day) weekly_offs holidays
      (if is_working_day day weekly_offs holidays then suc count else count)

unfoldable pub working_days_in_period : WorkCalendarConfig → ℕ → List Holiday → ℕ → ℕ → ℕ
working_days_in_period cfg company table start last =
    let count =
      count_days (suc last - start) start cfg.weekly_offs (holiday_dates company start last table)
        0 in
    if cfg.use_calendar_working_days
    then (if ltb count 1 then 1 else count)
    else default_working_days

-- The unique constraint on company and date, which counts deleted rows too.
abbrev pub taken : ℕ → ℕ → List Holiday → Bool
taken company date [] = false
taken company date (h ∷ table) =
    (h.company == company && h.date == date) || taken company date table

unfoldable pub create_holiday : ℕ → ℕ → ℕ → List Holiday → Outcome (List Holiday)
create_holiday id company date table =
    raise_if (taken company date table) conflict
      (ok (record { id = id; company = company; date = date; deleted = false } ∷ table))

abbrev pub is_row : ℕ → ℕ → Holiday → Bool
is_row id company h = h.id == id && live company h

abbrev pub mark_deleted : Holiday → Holiday
mark_deleted h = record h { deleted = true }

unfoldable pub delete_holiday : ℕ → ℕ → List Holiday → Outcome (List Holiday)
delete_holiday id company table =
    found_or (find_first (is_row id company) table) not_found
      (λ h. ok (update_where (is_row id company) mark_deleted table))

-- `date.year` of an ordinal.
unfoldable pub year_of : ℕ → ℕ
year_of day =
    let n = day - 1 in
    let n₄₀₀ = n % 146_097 in
    let n₁₀₀ = n₄₀₀ % 36_524 in
    let n₄ = n₁₀₀ % 1461 in
    let year = n / 146_097 * 400 + n₄₀₀ / 36_524 * 100 + n₁₀₀ / 1461 * 4 + n₄ / 365 + 1 in
    if n₄ / 365 == 4 || n₄₀₀ / 36_524 == 4 then year - 1 else year

-- The rows that `replace` leaves.
unfoldable pub clear_years : ℕ → List ℕ → List Holiday → List Holiday
clear_years company years = select (λ h. not (live company h && contains (year_of h.date) years))

abbrev pub live_dates : ℕ → List Holiday → List ℕ
live_dates company table = map (λ h. h.date) (select (live company) table)

pub record Plan : Type 0 where
  pub rows : List Holiday
  pub skipped : List ℕ

unfoldable pub add_row : Holiday → Plan → Plan
add_row h p = record p { rows = h ∷ p.rows }

unfoldable pub skip : ℕ → Plan → Plan
skip date p = record p { skipped = date ∷ p.skipped }

-- The loop of `import_holidays` over the file, of ids and dates.
unfoldable pub plan : ℕ → List ℕ → List ℕ → List (ℕ × ℕ) → Plan
plan company present seen [] = record { rows = []; skipped = [] }
plan company present seen ((id, date) ∷ rows) =
    let without = plan company present seen rows in
    let with_date = plan company present (date ∷ seen) rows in
    if contains date present || contains date seen
    then skip date without
    else add_row (record { id = id; company = company; date = date; deleted = false }) with_date

-- The commit: it fails where a row breaks the unique constraint.
unfoldable pub insert_all : List Holiday → List Holiday → Outcome (List Holiday)
insert_all [] table = ok table
insert_all (h ∷ rows) table =
    raise_if (taken h.company h.date table) server_error (insert_all rows (h ∷ table))

pub record Report : Type 0 where
  pub created : ℕ
  pub skipped : List ℕ
  pub replaced : ℕ

unfoldable pub kept : ℕ → List (ℕ × ℕ) → Bool → List Holiday → List Holiday
kept company rows replace table =
    if replace then clear_years company (map (λ r. year_of r.1) rows) table else table

unfoldable pub report : Plan → ℕ → Report
report p replaced = record { created = length p.rows; skipped = p.skipped; replaced = replaced }

unfoldable pub import_holidays :
    ℕ → List (ℕ × ℕ) → Bool → List Holiday → Outcome (List Holiday × Report)
import_holidays company [] replace table =
    ok (table, record { created = 0; skipped = []; replaced = 0 })
import_holidays company (r ∷ rs) replace table =
    let left = kept company (r ∷ rs) replace table in
    let p = plan company (live_dates company left) [] (r ∷ rs) in
    then_ok (insert_all p.rows left) (λ after. ok (after, report p (length table - length left)))
