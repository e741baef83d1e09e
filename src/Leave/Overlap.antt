-- ===== src/Leave/Overlap.antt =====
-- Overlaps between the requests of an employee (app/services/payroll/leave_service.py).
use croar_backend_new.Prelude.{
  not-false, ℕ, ◌≡◌, refl, Bool, true, false, not, ◌&&◌, ◌||◌, Bool-cases, inl, inr, ◌⊎◌, Option,
  some, List, [], ◌∷◌, find_first, find_yes, find_no, update_first, any,
}
use croar_backend_new.Http.{
  ok, bad_request, not_found, conflict, raise_if_ok, found_or_ok, then_ok_ok, ok-inj,
}
use croar_backend_new.Calendar.{Holiday, WorkCalendarConfig}
use croar_backend_new.Leave.{
  LeaveStatus, approved, cancelled, LeaveRequest, Db, Payload, is_pending, is_approved, occupies,
  overlaps, get_type, leave_working_days, create_request, is_request, get_request, decide, consume,
  refund, approve_request, decide_no_balance, cancel_request, new_request,
}

-- A request overlaps no later one that blocks its dates, unless it blocks none itself.
abbrev pub IsDisjoint : List LeaveRequest → Type 0
IsDisjoint [] = Unit
IsDisjoint (r ∷ rs) =
    ((occupies r ≡ false)
      ⊎ (any (overlaps r.company r.employee r.start_date r.end_date) rs ≡ false))
    × IsDisjoint rs

-- An operation on requests that succeeds.
pub data Step (s t : Db) : Type 0 where
  create :
      (cfg : WorkCalendarConfig) (table : List Holiday) (id company : ℕ) (p : Payload)
      (by : Option ℕ)
      → create_request cfg table id company p by s ≡ ok t
      → Step s t
  approve :
      (cfg : WorkCalendarConfig) (month company id : ℕ) (actor : Option ℕ)
      → approve_request cfg month company id actor s ≡ ok t
      → Step s t
  settle :
      (company id : ℕ) (status : LeaveStatus) (actor : Option ℕ)
      → decide_no_balance company id status actor s ≡ ok t
      → Step s t
  cancel :
      (month company id : ℕ) (actor : Option ℕ)
      → cancel_request month company id actor s ≡ ok t
      → Step s t

some_inj : (r s : LeaveRequest) → some r ≡ some s → r ≡ s
some_inj r s h = cc

or_false : (a b : Bool) → (a || b) ≡ false → (a ≡ false) × (b ≡ false)
or_false true b h = cc
or_false false b h = (refl, h)

frees :
    (a b c c' : Bool)
    → (a && (b && c)) ≡ false
    → (c' ≡ false) ⊎ (c ≡ true)
    → (a && (b && c')) ≡ false
frees false b c c' h k = refl
frees true false c c' h k = refl
frees true true c c' h (inl k) = k
frees true true c c' h (inr k) = cc

differ : (b : Bool) → b ≡ true → b ≡ false → ⊥
differ b h k = cc

-- Deciding a request that blocks its dates.
module _ (p : LeaveRequest → Bool) (status : LeaveStatus) (actor : Option ℕ)
    (r : LeaveRequest) where
  abbrev change : List LeaveRequest → List LeaveRequest
  change = update_first p (decide status actor)

  abbrev Frees : Type 0
  Frees = (occupies (decide status actor r) ≡ false) ⊎ (occupies r ≡ true)

  any-change :
      (company employee start last : ℕ) (rs : List LeaveRequest)
      → Frees
      → find_first p rs ≡ some r
      → any (overlaps company employee start last) rs ≡ false
      → any (overlaps company employee start last) (change rs) ≡ false
  unfolding decide
  any-change company employee start last [] f e h = refl
  any-change company employee start last (g ∷ rs) f e h =
      let (here, there) = or_false (overlaps company employee start last g) _ h in
      elim (Bool-cases (p g)) [
        | inl y ↦
            let same = some_inj g r (rw (find_yes p g rs y) at e) in
            let moved : overlaps company employee start last (decide status actor g) ≡ false =
              frees _ _ (occupies g) (occupies (decide status actor g)) here (rw same f) in
            rw (y, moved) there
        | inr n ↦
            rw (n, here)
              (any-change company employee start last rs f (rw (find_no p g rs n) at e) there)
      ]

  change-IsDisjoint :
      (rs : List LeaveRequest)
      → Frees
      → find_first p rs ≡ some r
      → IsDisjoint rs
      → IsDisjoint (change rs)
  unfolding decide
  change-IsDisjoint [] f e d = tt
  change-IsDisjoint (g ∷ rs) f e (here, d) = elim (Bool-cases (p g)) [
    | inl y ↦
        let same = some_inj g r (rw (find_yes p g rs y) at e) in
        let f' : (occupies (decide status actor g) ≡ false) ⊎ (occupies g ≡ true) = rw same f in
        rw y (
          elim f' [
            | inl k ↦ inl k
            | inr k ↦ elim here [ inl a ↦ absurd (differ (occupies g) k a) | inr b ↦ inr b ]
          ],
          d,
        )
    | inr n ↦
        let e' : find_first p rs ≡ some r = rw (find_no p g rs n) at e in
        rw n (
          elim here [
            | inl a ↦ inl a
            | inr b ↦ inr (any-change g.company g.employee g.start_date g.end_date rs f e' b)
          ],
          change-IsDisjoint rs f e' d,
        )
  ]

open_frees :
    (status : LeaveStatus) (actor : Option ℕ) (r : LeaveRequest)
    → (is_pending r.status || is_approved r.status) ≡ true
    → (occupies (decide status actor r) ≡ false) ⊎ (occupies r ≡ true)
unfolding decide
open_frees status actor r h = elim (Bool-cases r.deleted) [
  | inl e ↦ inl (rw e refl)
  | inr e ↦ inr (rw (e, h) refl)
]

or_left : (a b : Bool) → a ≡ true → (a || b) ≡ true
or_left a b h = rw h refl

keep : (x t : Db) → ok x ≡ ok t → IsDisjoint x.requests → IsDisjoint t.requests
keep x t h d = rw (← ok-inj x t h) d

-- Creating, approving, rejecting and cancelling requests keep the blocking requests of every
-- employee from overlapping.
pub step-IsDisjoint : (s t : Db) → Step s t → IsDisjoint s.requests → IsDisjoint t.requests
unfolding create_request approve_request decide_no_balance cancel_request
step-IsDisjoint s t (create cfg table id company p by h) d =
    let working = leave_working_days cfg table company p.start_date p.end_date in
    let (_, h₁) = raise_if_ok _ bad_request _ t h in
    let (_, h₂) = raise_if_ok _ bad_request _ t h₁ in
    let (_, _, h₃) = found_or_ok (get_type company p.leave_type s) not_found _ t h₂ in
    let (e, h₄) =
      raise_if_ok (any (overlaps company p.employee p.start_date p.end_date) s.requests) conflict _
        t h₃ in
    let (_, h₅) = raise_if_ok _ bad_request _ t h₄ in
    keep (record s { requests = new_request id company p working by ∷ s.requests }) t h₅ (inr e, d)
step-IsDisjoint s t (approve cfg month company id actor h) d =
    let (r, found, h₁) = found_or_ok (get_request company id s) not_found _ t h in
    let (e, h₂) = raise_if_ok (not (is_pending r.status)) conflict _ t h₁ in
    let (_, h₃) = raise_if_ok _ conflict _ t h₂ in
    let (u, _, h₄) = found_or_ok (get_type company r.leave_type s) not_found _ t h₃ in
    let (rows, _, h₅) = then_ok_ok (consume u month r s.balances) _ t h₄ in
    let free = open_frees approved actor r (or_left _ _ (not-false _ e)) in
    keep _ t h₅ (change-IsDisjoint (is_request company id) approved actor r s.requests free found d)
step-IsDisjoint s t (settle company id status actor h) d =
    let (r, found, h₁) = found_or_ok (get_request company id s) not_found _ t h in
    let (e, h₂) = raise_if_ok (not (is_pending r.status)) conflict _ t h₁ in
    let free = open_frees status actor r (or_left _ _ (not-false _ e)) in
    keep _ t h₂ (change-IsDisjoint (is_request company id) status actor r s.requests free found d)
step-IsDisjoint s t (cancel month company id actor h) d =
    let (r, found, h₁) = found_or_ok (get_request company id s) not_found _ t h in
    let (e, h₂) = raise_if_ok (not (is_pending r.status || is_approved r.status)) conflict _ t h₁ in
    let (rows, _, h₃) =
      then_ok_ok (refund month r (get_type company r.leave_type s) s.balances) _ t h₂ in
    let free = open_frees cancelled actor r (not-false _ e) in
    keep _ t h₃
      (change-IsDisjoint (is_request company id) cancelled actor r s.requests free found d)
