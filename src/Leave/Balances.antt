-- ===== src/Leave/Balances.antt =====
-- The balances: the days used against the days accrued.
use croar_backend_new.Prelude.{
  ℕ, ◌+◌, ◌-◌, ◌≤◌, ◌≡◌, Bool, true, false, not, Bool-cases, inl, inr, Option, some, is_some, List,
  [], ◌∷◌, any, All, All-update_first, find_first, find_yes, find_no, update_first, ltb,
  if◌then◌else◌, arith,
}
use croar_backend_new.Http.{
  ok, bad_request, not_found, conflict, raise_if_ok, found_or_ok, then_ok_ok, ok-inj, found_or,
}
use croar_backend_new.Text.{Text}
use croar_backend_new.Leave.{
  LeaveBalance, LeaveType, LeaveRequest, Db, default_financial_year, accrued_for, is_balance,
  refresh, ensure_balance, use_days, restore_days, charge, give_back, approve_request,
  cancel_request, create_request, decide_no_balance, get_request, get_type, is_pending, is_approved,
  consume, refund, leave_working_days, overlaps, new_request,
}
use croar_backend_new.Leave.Overlap.{Step, create, approve, settle, cancel}

abbrev pub IsWithin : LeaveBalance → Type 0
IsWithin b = b.used ≤ b.accrued

some_inj : (r s : LeaveBalance) → some r ≡ some s → r ≡ s
some_inj r s h = cc

-- A change of the first match.
All-found :
    (p : LeaveBalance → Bool) (f : LeaveBalance → LeaveBalance) (b : LeaveBalance)
    (rows : List LeaveBalance)
    → find_first p rows ≡ some b
    → IsWithin (f b)
    → All IsWithin rows
    → All IsWithin (update_first p f rows)
All-found p f b [] e w all = tt
All-found p f b (g ∷ rows) e w (here, all) = elim (Bool-cases (p g)) [
  | inl y ↦
      let same = some_inj g b (rw (find_yes p g rows y) at e) in
      let w' : IsWithin (f g) = rw same w in rw y (w', all)
  | inr n ↦ rw n (here, All-found p f b rows (rw (find_no p g rows n) at e) w all)
]

refresh-IsWithin :
    (quota accrued : ℕ) (b : LeaveBalance) → IsWithin b → IsWithin (refresh quota accrued b)
unfolding refresh
refresh-IsWithin quota accrued b h = elim (Bool-cases (ltb b.accrued accrued)) [
  | inl e ↦ rw e (ground arith)
  | inr e ↦ rw e h
]

pub ensure-IsWithin :
    (employee : ℕ) (t : LeaveType) (year : Text) (month : Option ℕ) (rows : List LeaveBalance)
    → All IsWithin rows
    → All IsWithin (ensure_balance employee t year month rows)
unfolding ensure_balance
ensure-IsWithin employee t year month rows all =
    let mine = is_balance employee t.id year in
    elim (Bool-cases (is_some (find_first mine rows))) [
      | inl e ↦ rw e (
          All-update_first IsWithin mine _ rows
            (refresh-IsWithin t.annual_quota (accrued_for t month)) all)
      | inr e ↦ rw e (omega arith, all)
    ]

charge-IsWithin :
    (t : LeaveType) (month : ℕ) (r : LeaveRequest) (rows after : List LeaveBalance)
    → charge t month r rows ≡ ok after
    → All IsWithin rows
    → All IsWithin after
unfolding charge use_days
charge-IsWithin t month r rows after h all =
    let mine = is_balance r.employee t.id default_financial_year in
    let rows' = ensure_balance r.employee t default_financial_year (some month) rows in
    let (b, found, h₁) = found_or_ok (find_first mine rows') conflict _ after h in
    let (e, h₂) = raise_if_ok (ltb b.accrued (b.used + r.days)) conflict _ after h₁ in
    let within : b.used + r.days ≤ b.accrued = ground arith in
    rw (← ok-inj _ after h₂) (
      All-found mine (use_days r.days) b rows' found within
        (ensure-IsWithin r.employee t default_financial_year (some month) rows all))

give_back-IsWithin :
    (t : LeaveType) (month : ℕ) (r : LeaveRequest) (rows : List LeaveBalance)
    → All IsWithin rows
    → All IsWithin (give_back t month r rows)
unfolding give_back restore_days
give_back-IsWithin t month r rows all =
    All-update_first IsWithin (is_balance r.employee t.id default_financial_year)
      (restore_days r.days) _ (λ b h. less b.used r.days b.accrued h)
      (ensure-IsWithin r.employee t default_financial_year (some month) rows all)
  where
    less : (u n a : ℕ) → u ≤ a → u - n ≤ a
    less u n a h = omega arith

keep : (x t : Db) → ok x ≡ ok t → All IsWithin x.balances → All IsWithin t.balances
keep x t h d = rw (← ok-inj x t h) d

consume-IsWithin :
    (t : LeaveType) (month : ℕ) (r : LeaveRequest) (rows after : List LeaveBalance)
    → consume t month r rows ≡ ok after
    → All IsWithin rows
    → All IsWithin after
unfolding consume
consume-IsWithin t month r rows after h all = branch t.is_paid h
  where
    branch :
        (b : Bool) → (if b then charge t month r rows else ok rows) ≡ ok after → All IsWithin after
    branch true k = charge-IsWithin t month r rows after k all
    branch false k = rw (← ok-inj rows after k) all

refund-IsWithin :
    (month : ℕ) (r : LeaveRequest) (o : Option LeaveType) (rows after : List LeaveBalance)
    → refund month r o rows ≡ ok after
    → All IsWithin rows
    → All IsWithin after
unfolding refund
refund-IsWithin month r o rows after h all = branch (is_approved r.status) h
  where
    either : Bool → LeaveType → List LeaveBalance
    either b t = if b then give_back t month r rows else rows

    either-IsWithin : (b : Bool) (t : LeaveType) → All IsWithin (either b t)
    either-IsWithin true t = give_back-IsWithin t month r rows all
    either-IsWithin false t = all

    branch :
        (b : Bool)
        → (if b then found_or o not_found (λ t. ok (either t.is_paid t)) else ok rows) ≡ ok after
        → All IsWithin after
    branch true k =
        let (t, _, e) = found_or_ok o not_found (λ t. ok (either t.is_paid t)) after k in
        rw (← ok-inj (either t.is_paid t) after e) (either-IsWithin t.is_paid t)
    branch false k = rw (← ok-inj rows after k) all

-- Creating, approving, rejecting and cancelling requests keep the days used of every balance within
-- the days accrued.
pub step-IsWithin : (s t : Db) → Step s t → All IsWithin s.balances → All IsWithin t.balances
unfolding create_request approve_request decide_no_balance cancel_request
step-IsWithin s t (create cfg table id company p by h) all =
    let working = leave_working_days cfg table company p.start_date p.end_date in
    let (_, h₁) = raise_if_ok _ bad_request _ t h in
    let (_, h₂) = raise_if_ok _ bad_request _ t h₁ in
    let (_, _, h₃) = found_or_ok (get_type company p.leave_type s) not_found _ t h₂ in
    let (_, h₄) =
      raise_if_ok (any (overlaps company p.employee p.start_date p.end_date) s.requests) conflict _
        t h₃ in
    let (_, h₅) = raise_if_ok _ bad_request _ t h₄ in
    keep (record s { requests = new_request id company p working by ∷ s.requests }) t h₅ all
step-IsWithin s t (approve cfg month company id actor h) all =
    let (r, found, h₁) = found_or_ok (get_request company id s) not_found _ t h in
    let (_, h₂) = raise_if_ok (not (is_pending r.status)) conflict _ t h₁ in
    let (_, h₃) = raise_if_ok _ conflict _ t h₂ in
    let (u, _, h₄) = found_or_ok (get_type company r.leave_type s) not_found _ t h₃ in
    let (rows, e, h₅) = then_ok_ok (consume u month r s.balances) _ t h₄ in
    keep _ t h₅ (consume-IsWithin u month r s.balances rows e all)
step-IsWithin s t (settle company id status actor h) all =
    let (r, found, h₁) = found_or_ok (get_request company id s) not_found _ t h in
    let (_, h₂) = raise_if_ok _ conflict _ t h₁ in keep _ t h₂ all
step-IsWithin s t (cancel month company id actor h) all =
    let (r, found, h₁) = found_or_ok (get_request company id s) not_found _ t h in
    let (_, h₂) = raise_if_ok _ conflict _ t h₁ in
    let (rows, e, h₃) =
      then_ok_ok (refund month r (get_type company r.leave_type s) s.balances) _ t h₂ in
    keep _ t h₃ (refund-IsWithin month r (get_type company r.leave_type s) s.balances rows e all)
