-- ===== src/Attendance/Punches.antt =====
-- What the punches of a day add up to.
use croar_backend_new.Prelude.{
  ℕ, ◌+◌, ◌-◌, ◌≤◌, ◌≡◌, refl, Bool, true, false, not, ◌&&◌, Option, none, some, List, [], ◌∷◌, inl,
  inr, Bool-cases, any, leb, arith, if◌then◌else◌,
}
use croar_backend_new.Attendance.{
  AttendancePunch, is_in, insert_punch, sort_punches, or_open, worked_until, work_loop,
  worked_seconds,
}

-- In the order of their times, from a time on.
abbrev pub IsOrdered : ℕ → List AttendancePunch → Type 0
IsOrdered from [] = Unit
IsOrdered from (p ∷ ps) = (from ≤ p.punched_at) × IsOrdered p.punched_at ps

abbrev pub has_out : List AttendancePunch → Bool
has_out = any (λ p. not (is_in p))

-- Time at work, described by the gaps between neighbouring punches: a gap counts where it begins with
-- an in and an out is still to come.
abbrev gap : AttendancePunch → AttendancePunch → Bool → ℕ
gap p q closes = if is_in p && closes then q.punched_at - p.punched_at else 0

abbrev pub time_at_work : List AttendancePunch → ℕ
time_at_work [] = 0
time_at_work (p ∷ []) = 0
time_at_work (p ∷ q ∷ ps) = gap p q (has_out (q ∷ ps)) + time_at_work (q ∷ ps)

-- What an open in adds.
abbrev from_open : Option ℕ → List AttendancePunch → ℕ
from_open none ps = 0
from_open (some first) [] = 0
from_open (some first) (p ∷ ps) = if has_out (p ∷ ps) then p.punched_at - first else 0

abbrev opened_at : Option ℕ → ℕ → ℕ
opened_at none from = from
opened_at (some first) from = first

work_loop-in :
    (p : AttendancePunch) (ps : List AttendancePunch) (worked : ℕ) (open_in : Option ℕ)
    → is_in p ≡ true
    → work_loop (p ∷ ps) worked open_in ≡ work_loop ps worked (or_open open_in p.punched_at)
unfolding work_loop
work_loop-in p ps worked open_in y = rw y refl

work_loop-out :
    (p : AttendancePunch) (ps : List AttendancePunch) (worked : ℕ) (open_in : Option ℕ)
    → is_in p ≡ false
    → work_loop (p ∷ ps) worked open_in
      ≡ work_loop ps (worked_until worked open_in p.punched_at) none
unfolding work_loop
work_loop-out p ps worked open_in n = rw n refl

work_loop-nil : (worked : ℕ) (open_in : Option ℕ) → work_loop [] worked open_in ≡ worked
unfolding work_loop
work_loop-nil worked open_in = refl

-- One punch in `from_open` and in `time_at_work`.
from_open-in :
    (first from : ℕ) (p : AttendancePunch) (ps : List AttendancePunch)
    → first ≤ p.punched_at
    → IsOrdered p.punched_at ps
    → is_in p ≡ true
    → from_open (some first) ps ≡ from_open (some first) (p ∷ ps) + from_open (some p.punched_at) ps
from_open-in first from p [] le os y = rw y refl
from_open-in first from p (q ∷ ps) le (o, os) y = rw y (step (has_out (q ∷ ps)))
  where
    step :
        (b : Bool)
        → (if b then q.punched_at - first else 0)
          ≡ (if b then p.punched_at - first else 0) + (if b then q.punched_at - p.punched_at else 0)
    step true = omega arith
    step false = refl

time_at_work-in :
    (p : AttendancePunch) (ps : List AttendancePunch)
    → is_in p ≡ true
    → time_at_work (p ∷ ps) ≡ from_open (some p.punched_at) ps + time_at_work ps
time_at_work-in p [] y = refl
time_at_work-in p (q ∷ ps) y = rw y refl

time_at_work-out :
    (p : AttendancePunch) (ps : List AttendancePunch)
    → is_in p ≡ false
    → time_at_work (p ∷ ps) ≡ time_at_work ps
time_at_work-out p [] n = refl
time_at_work-out p (q ∷ ps) n =
    let shut : gap p q (has_out (q ∷ ps)) ≡ 0 = rw n refl in omega (arith, shut)

from_open-out :
    (first : ℕ) (p : AttendancePunch) (ps : List AttendancePunch)
    → is_in p ≡ false
    → from_open (some first) (p ∷ ps) ≡ p.punched_at - first
from_open-out first p ps n = rw n refl

work_loop_lem :
    (ps : List AttendancePunch) (worked from : ℕ) (open_in : Option ℕ)
    → IsOrdered from ps
    → opened_at open_in from ≤ from
    → work_loop ps worked open_in ≡ worked + from_open open_in ps + time_at_work ps
work_loop_lem [] worked from none o le = rw (work_loop-nil worked none) (omega arith)
work_loop_lem [] worked from (some first) o le =
    rw (work_loop-nil worked (some first)) (omega arith)
work_loop_lem (p ∷ ps) worked from none (o, os) le = elim (Bool-cases (is_in p)) [
  | inl y ↦
      let ih = work_loop_lem ps worked p.punched_at (some p.punched_at) os (omega arith) in
      omega (arith, work_loop-in p ps worked none y, ih, time_at_work-in p ps y)
  | inr n ↦
      let ih = work_loop_lem ps worked p.punched_at none os (omega arith) in
      omega (arith, work_loop-out p ps worked none n, ih, time_at_work-out p ps n)
]
work_loop_lem (p ∷ ps) worked from (some first) (o, os) le = elim (Bool-cases (is_in p)) [
  | inl y ↦
      let ih = work_loop_lem ps worked p.punched_at (some first) os (omega arith) in
      omega (
        arith,
        work_loop-in p ps worked (some first) y,
        ih,
        time_at_work-in p ps y,
        from_open-in first from p ps (omega arith) os y,
      )
  | inr n ↦
      let ih =
        work_loop_lem ps (worked + (p.punched_at - first)) p.punched_at none os (omega arith) in
      omega (
        arith,
        work_loop-out p ps worked (some first) n,
        ih,
        time_at_work-out p ps n,
        from_open-out first p ps n,
      )
]

insert_punch-IsOrdered :
    (from : ℕ) (p : AttendancePunch) (qs : List AttendancePunch)
    → from ≤ p.punched_at
    → IsOrdered from qs
    → IsOrdered from (insert_punch p qs)
insert_punch-IsOrdered from p [] le o = (le, tt)
insert_punch-IsOrdered from p (q ∷ qs) le (o, os) =
    elim (Bool-cases (leb p.punched_at q.punched_at)) [
      | inl y ↦ rw y (le, (ground arith, os))
      | inr n ↦ rw n (o, insert_punch-IsOrdered q.punched_at p qs (ground arith) os)
    ]

pub sort_punches-IsOrdered : (ps : List AttendancePunch) → IsOrdered 0 (sort_punches ps)
sort_punches-IsOrdered [] = tt
sort_punches-IsOrdered (p ∷ ps) =
    insert_punch-IsOrdered 0 p (sort_punches ps) (omega arith) (sort_punches-IsOrdered ps)

-- For every list of punches, the time that the loop adds up is the time at work: the sum, over the
-- punches in the order of their times, of the gaps that begin with an in and have an out to come.
pub worked_seconds_lem :
    (punches : List AttendancePunch) → worked_seconds punches ≡ time_at_work (sort_punches punches)
unfolding worked_seconds
worked_seconds_lem punches =
    let lem =
      work_loop_lem (sort_punches punches) 0 0 none (sort_punches-IsOrdered punches)
        (omega arith) in
    omega (arith, lem)
