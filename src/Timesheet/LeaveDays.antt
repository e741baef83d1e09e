-- ===== src/Timesheet/LeaveDays.antt =====
-- The map of approved leave that the timesheets take in (get_approved_leave_days of
-- app/services/payroll/leave_service.py), as the list of its pairs, the latest first.
use croar_backend_new.Prelude.{
  ℕ, zero, suc, ◌+◌, ◌-◌, ◌≤◌, ◌<◌, ◌≡◌, refl, min, Bool, true, false, not, ◌&&◌, ◌||◌, List, [],
  ◌∷◌, All, select, any, ltb, ◌==◌, if◌then◌else◌, arith, find_first, Option, none, some,
}
use croar_backend_new.Calendar.{days, days_from}
use croar_backend_new.Leave.{LeaveRequest, LeaveType, Db, is_approved}
use croar_backend_new.Timesheet.{
  DayStatus, paid_leave, unpaid_leave, half_day, half_day_paid, leave_locked,
}

abbrev pub is_paid_type : Option LeaveType → Bool
is_paid_type none = true
is_paid_type (some t) = t.is_paid

abbrev half_status : Bool → DayStatus
half_status paid = if paid then half_day_paid else half_day

abbrev full_status : Bool → DayStatus
full_status paid = if paid then paid_leave else unpaid_leave

abbrev pub in_range : ℕ → ℕ → ℕ → Bool
in_range start last d = not (ltb d start) && not (ltb last d)

abbrev latest : ℕ → ℕ → ℕ
latest a b = if ltb a b then b else a

-- `out[day] = status` for the days of a range.
unfoldable pub fill : List ℕ → DayStatus → List (ℕ × DayStatus) → List (ℕ × DayStatus)
fill [] s out = out
fill (d ∷ ds) s out = fill ds s ((d, s) ∷ out)

-- One request of the loop.
unfoldable pub mark_leave :
    ℕ → ℕ → Bool → LeaveRequest → List (ℕ × DayStatus) → List (ℕ × DayStatus)
mark_leave start last paid r out =
    if r.half_day
    then (if in_range start last r.start_date then (r.start_date, half_status paid) ∷ out else out)
    else fill (days (latest r.start_date start) (min r.end_date last)) (full_status paid) out

unfoldable pub mark_all :
    ℕ → ℕ → List LeaveType → List LeaveRequest → List (ℕ × DayStatus) → List (ℕ × DayStatus)
mark_all start last types [] out = out
mark_all start last types (r ∷ rs) out =
    mark_all start last types rs
      (mark_leave start last (is_paid_type (find_first (λ t. t.id == r.leave_type) types)) r out)

abbrev pub approved_in : ℕ → ℕ → ℕ → ℕ → LeaveRequest → Bool
approved_in company employee start last r =
    (r.company == company && r.employee == employee)
    && ((is_approved r.status && not r.deleted)
        && (not (ltb last r.start_date) && not (ltb r.end_date start)))

unfoldable pub get_approved_leave_days : ℕ → ℕ → ℕ → ℕ → Db → List (ℕ × DayStatus)
get_approved_leave_days company employee start last db =
    mark_all start last db.types (select (approved_in company employee start last) db.requests) []

-- Whether a request has a day; half a day is its first.
abbrev pub has_day : ℕ → LeaveRequest → Bool
has_day d r = if r.half_day then d == r.start_date else in_range r.start_date r.end_date d

-- A day in the range, with a status of leave, that one of the requests has.
pub record IsLeave (start last : ℕ) (rs : List LeaveRequest) (p : ℕ × DayStatus) : Type 0 where
  pub from_start : start ≤ p.0
  pub to_last : p.0 ≤ last
  pub status : leave_locked p.1 ≡ true
  pub covered : any (has_day p.0) rs ≡ true

-- A request that stands in a list.
abbrev Within : List LeaveRequest → LeaveRequest → Type 0
Within rs r = (d : ℕ) → has_day d r ≡ true → any (has_day d) rs ≡ true

or_right : (a b : Bool) → b ≡ true → (a || b) ≡ true
or_right true b h = refl
or_right false b h = h

weaken :
    (x : LeaveRequest) (rs ys : List LeaveRequest) → All (Within rs) ys → All (Within (x ∷ rs)) ys
weaken x rs [] h = tt
weaken x rs (y ∷ ys) (here, h) =
    (λ d k. or_right (has_day d x) (any (has_day d) rs) (here d k), weaken x rs ys h)

All-Within : (rs : List LeaveRequest) → All (Within rs) rs
All-Within [] = tt
All-Within (r ∷ rs) = (λ d k. rw k refl, weaken r rs rs (All-Within rs))

fill-IsLeave :
    (start last : ℕ) (rs : List LeaveRequest) (s : DayStatus) (n lo : ℕ)
    (out : List (ℕ × DayStatus))
    → leave_locked s ≡ true
    → start ≤ lo
    → ((d : ℕ) → lo ≤ d → d < lo + n → (d ≤ last) × (any (has_day d) rs ≡ true))
    → All (IsLeave start last rs) out
    → All (IsLeave start last rs) (fill (days_from n lo) s out)
unfolding fill days_from
fill-IsLeave start last rs s zero lo out l b k h = h
fill-IsLeave start last rs s (suc n) lo out l b k h =
    let (top, cov) = k lo (omega arith) (omega arith) in
    fill-IsLeave start last rs s n (suc lo) ((lo, s) ∷ out) l (omega arith)
      (λ d p q. k d (omega arith) (omega arith))
      (record { from_start = b; to_last = top; status = l; covered = cov }, h)

full_locked : (b : Bool) → leave_locked (full_status b) ≡ true
full_locked true = refl
full_locked false = refl

half_locked : (b : Bool) → leave_locked (half_status b) ≡ true
half_locked true = refl
half_locked false = refl

-- `start <= d <= last`
in_range_le : (start last d : ℕ) → in_range start last d ≡ true → (start ≤ d) × (d ≤ last)
in_range_le start last d e = (ground arith, ground arith)

in_range_of_le : (start last d : ℕ) → start ≤ d → d ≤ last → in_range start last d ≡ true
in_range_of_le start last d a b = ground arith

latest_le : (a b : ℕ) → b ≤ latest a b
latest_le a b = ground arith

-- A day of the loop lies in the request and in the range.
day_in :
    (from start to last d : ℕ)
    → latest from start ≤ d
    → d < latest from start + (suc (min to last) - latest from start)
    → (from ≤ d) × (d ≤ to) × (d ≤ last)
day_in from start to last d p q = (ground arith, ground arith, ground arith)

eq_refl : (n : ℕ) → (n == n) ≡ true
eq_refl n = ground arith

first : (b c x : Bool) → b ≡ true → c ≡ true → (if b then c else x) ≡ true
first b c x h k = rw h k

second : (b c x : Bool) → b ≡ false → x ≡ true → (if b then c else x) ≡ true
second b c x h k = rw h k

mark_leave-IsLeave :
    (start last : ℕ) (rs : List LeaveRequest) (paid : Bool) (r : LeaveRequest)
    (out : List (ℕ × DayStatus))
    → Within rs r
    → All (IsLeave start last rs) out
    → All (IsLeave start last rs) (mark_leave start last paid r out)
unfolding mark_leave
mark_leave-IsLeave start last rs paid r out w h = branch r.half_day refl
  where
    one : List (ℕ × DayStatus)
    one = (r.start_date, half_status paid) ∷ out

    inside :
        (b : Bool)
        → in_range start last r.start_date ≡ b
        → r.half_day ≡ true
        → All (IsLeave start last rs) (if b then one else out)
    inside true e k =
        let (low, high) = in_range_le start last r.start_date e in
        (
          record {
            from_start = low;
            to_last = high;
            status = half_locked paid;
            covered = w r.start_date (first _ _ _ k (eq_refl r.start_date));
          },
          h,
        )
    inside false e k = h

    lo : ℕ
    lo = latest r.start_date start

    branch :
        (b : Bool)
        → r.half_day ≡ b
        → All (IsLeave start last rs) (
            if b
            then (if in_range start last r.start_date then one else out)
            else fill (days lo (min r.end_date last)) (full_status paid) out)
    branch true k = inside (in_range start last r.start_date) refl k
    branch false k =
        fill-IsLeave start last rs (full_status paid) (suc (min r.end_date last) - lo) lo out
          (full_locked paid) (latest_le r.start_date start)
          (λ d p q.
            let (a, b, c) = day_in r.start_date start r.end_date last d p q in
            (c, w d (second _ _ _ k (in_range_of_le r.start_date r.end_date d a b))))
          h

mark_all-IsLeave :
    (start last : ℕ) (types : List LeaveType) (all rs : List LeaveRequest)
    (out : List (ℕ × DayStatus))
    → All (Within all) rs
    → All (IsLeave start last all) out
    → All (IsLeave start last all) (mark_all start last types rs out)
unfolding mark_all
mark_all-IsLeave start last types all [] out w h = h
mark_all-IsLeave start last types all (r ∷ rs) out (here, w) h =
    mark_all-IsLeave start last types all rs _ w (mark_leave-IsLeave start last all _ r out here h)

-- Every day of the map lies in the range that was asked for, has a status of leave, and is a day of an
-- approved request of the employee that overlaps the range.
pub get_approved_leave_days-IsLeave :
    (company employee start last : ℕ) (db : Db)
    → All
        (IsLeave start last (select (approved_in company employee start last) db.requests))
        (get_approved_leave_days company employee start last db)
unfolding get_approved_leave_days
get_approved_leave_days-IsLeave company employee start last db =
    let rs = select (approved_in company employee start last) db.requests in
    mark_all-IsLeave start last db.types rs rs [] (All-Within rs) tt
