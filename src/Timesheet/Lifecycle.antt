-- ===== src/Timesheet/Lifecycle.antt =====
-- The operations on a timesheet as steps.
use croar_backend_new.Prelude.{
  not-false, ℕ, ◌≡◌, refl, ap, ◌∙◌, Bool, true, false, not, ◌&&◌, ◌||◌, inl, inr, ◌⊎◌, Option, none,
  some, List, map, any, if◌then◌else◌,
}
use croar_backend_new.Http.{
  Outcome, ok, not_found, conflict, raise_if_ok, found_or_ok, then_ok_ok, ok-inj,
}
use croar_backend_new.Calendar.{WorkCalendarConfig}
use croar_backend_new.Leave.{same_user}
use croar_backend_new.Timesheet.{
  DayStatus, TimesheetStatus, draft, submitted, approved, rejected, PayrollCycleStatus,
  TimesheetEntry, Timesheet, editable_state, editable_cycle, recompute_aggregates,
}
use croar_backend_new.Timesheet.Edits.{
  EntryIn, apply_items, mark_items, bulk_update_entries, self_mark_entries,
}
use croar_backend_new.Timesheet.Status.{
  is_submitted, is_approved, stamp_submitted, stamp_approved, transition, submit, approve, reject,
  reopen, overlay, moves, is_hourly, resync_leave,
}
use croar_backend_new.Timesheet.Hours.{in_units, stored, stored-AreCounted}
use croar_backend_new.Timesheet.Totals.{AreCounted, IsConsistent-AreCounted, recompute-IsConsistent}

-- An operation on a sheet that succeeds: its edits, its lifecycle and the resync of leave, but not the
-- import of an attendance file.
pub data Step (cfg : WorkCalendarConfig) (ts t : Timesheet) : Type 0 where
  updated :
      (units : ℕ) (column : ℕ → ℕ) (cycle : Option PayrollCycleStatus) (items : List EntryIn)
      → bulk_update_entries units column (some ts) cycle items ≡ ok t
      → Step cfg ts t
  marked :
      (units : ℕ) (column : ℕ → ℕ) (today employee : ℕ) (cycle : Option PayrollCycleStatus)
      (items : List EntryIn)
      → self_mark_entries units column today employee (some ts) cycle items ≡ ok t
      → Step cfg ts t
  submits : (actor : Option ℕ) → submit cfg actor (some ts) ≡ ok t → Step cfg ts t
  approves : (actor : Option ℕ) → approve cfg actor (some ts) ≡ ok t → Step cfg ts t
  rejects : (actor : Option ℕ) → reject cfg actor (some ts) ≡ ok t → Step cfg ts t
  reopens : (actor : Option ℕ) → reopen cfg actor (some ts) ≡ ok t → Step cfg ts t
  resynced :
      (leave : List (ℕ × DayStatus)) (cycle : Option PayrollCycleStatus)
      → resync_leave leave (some ts) cycle ≡ ok (some t)
      → Step cfg ts t

-- Under segregation of duties nobody approved what the same user submitted.
abbrev pub IsChecked : WorkCalendarConfig → TimesheetStatus → Option ℕ → Option ℕ → Type 0
IsChecked cfg status by submitter =
    (is_approved status && (cfg.enforce_maker_checker && same_user by submitter)) ≡ false

-- What a step can be.
data Change (cfg : WorkCalendarConfig) (ts t : Timesheet) : Type 0 where
  edited :
      (es : List TimesheetEntry)
      → editable_state ts.status ≡ true
      → recompute_aggregates (record ts { entries = es }) ≡ t
      → Change cfg ts t
  rounded :
      (column : ℕ → ℕ) (es : List TimesheetEntry)
      → editable_state ts.status ≡ true
      → stored column (recompute_aggregates (record ts { entries = es })) ≡ t
      → Change cfg ts t
  left : ts ≡ t → Change cfg ts t
  moved :
      (status : TimesheetStatus) (submitter by : Option ℕ)
      → IsChecked cfg status by submitter
      → record ts { status = status; submitted_by = submitter; approved_by = by } ≡ t
      → Change cfg ts t

-- What a transition that succeeds did.
transition_ok :
    (cfg : WorkCalendarConfig) (allowed : TimesheetStatus → Bool) (to : TimesheetStatus)
    (actor : Option ℕ) (sub app : Bool) (ts t : Timesheet)
    → transition cfg allowed to actor sub app (some ts) ≡ ok t
    → ((app && (cfg.enforce_maker_checker && same_user actor ts.submitted_by)) ≡ false)
      × (stamp_approved app actor (stamp_submitted sub actor (record ts { status = to })) ≡ t)
unfolding transition
transition_ok cfg allowed to actor sub app ts t h =
    let (_, h₁) = raise_if_ok (not (allowed ts.status)) conflict _ t h in
    let (e, h₂) =
      raise_if_ok (app && (cfg.enforce_maker_checker && same_user actor ts.submitted_by)) conflict _
        t h₁ in
    (e, ok-inj _ t h₂)

skipped_not :
    (b : Bool) (k : Outcome (Option Timesheet)) (t : Timesheet)
    → (if b then ok none else k) ≡ ok (some t)
    → (b ≡ false) × (k ≡ ok (some t))
skipped_not true k t h = cc
skipped_not false k t h = (refl, h)

some_inj : (a b : Timesheet) → some a ≡ some b → a ≡ b
some_inj a b k = cc

or_false : (a b : Bool) → (a || b) ≡ false → b ≡ false
or_false true b h = cc
or_false false b h = h

-- What a resync that is not skipped did.
pub resync_leave_ok :
    (leave : List (ℕ × DayStatus)) (cycle : Option PayrollCycleStatus) (ts t : Timesheet)
    → resync_leave leave (some ts) cycle ≡ ok (some t)
    → (editable_state ts.status ≡ true)
      × ((recompute_aggregates (record ts { entries = map (overlay leave) ts.entries }) ≡ t)
          ⊎ ((any (moves leave) ts.entries ≡ false) × (ts ≡ t)))
unfolding resync_leave
resync_leave_ok leave cycle ts t h =
    let (e, h₁) = skipped_not (is_hourly ts.mode || not (editable_state ts.status)) _ t h in
    let (c, _, h₂) = found_or_ok cycle not_found _ (some t) h₁ in
    let (_, h₃) = skipped_not (not (editable_cycle c)) _ t h₂ in
    (not-false _ (or_false (is_hourly ts.mode) _ e), branch (any (moves leave) ts.entries) refl h₃)
  where
    stamped : Timesheet
    stamped = recompute_aggregates (record ts { entries = map (overlay leave) ts.entries })

    branch :
        (b : Bool)
        → any (moves leave) ts.entries ≡ b
        → (if b then ok (some stamped) else ok (some ts)) ≡ ok (some t)
        → (stamped ≡ t) ⊎ ((any (moves leave) ts.entries ≡ false) × (ts ≡ t))
    branch true n k = inl (some_inj stamped t (ok-inj _ (some t) k))
    branch false n k = inr (n, some_inj ts t (ok-inj _ (some t) k))

resync_change :
    (cfg : WorkCalendarConfig) (leave : List (ℕ × DayStatus)) (cycle : Option PayrollCycleStatus)
    (ts t : Timesheet)
    → resync_leave leave (some ts) cycle ≡ ok (some t)
    → Change cfg ts t
resync_change cfg leave cycle ts t h =
    let (e, k) = resync_leave_ok leave cycle ts t h in
    elim k [ inl a ↦ edited (map (overlay leave) ts.entries) e a | inr (_, a) ↦ left a ]

change : (cfg : WorkCalendarConfig) (ts t : Timesheet) → Step cfg ts t → Change cfg ts t
unfolding submit approve reject reopen stamp_submitted stamp_approved bulk_update_entries
    self_mark_entries
change cfg ts t (updated units column cycle items h) =
    let (e, h₁) = raise_if_ok (not (editable_state ts.status)) conflict _ t h in
    let (c, _, h₂) = found_or_ok cycle not_found _ t h₁ in
    let (_, h₃) = raise_if_ok (not (editable_cycle c)) conflict _ t h₂ in
    rounded column (apply_items items (in_units units ts.entries)) (not-false _ e) (ok-inj _ t h₃)
change cfg ts t (marked units column today employee cycle items h) =
    let (_, h₁) = raise_if_ok _ not_found _ t h in
    let (e, h₂) = raise_if_ok (not (editable_state ts.status)) conflict _ t h₁ in
    let (c, _, h₃) = found_or_ok cycle not_found _ t h₂ in
    let (_, h₄) = raise_if_ok (not (editable_cycle c)) conflict _ t h₃ in
    let (es, _, h₅) = then_ok_ok (mark_items today items (in_units units ts.entries)) _ t h₄ in
    rounded column es (not-false _ e) (ok-inj _ t h₅)
change cfg ts t (submits actor h) =
    moved submitted actor ts.approved_by refl
      (transition_ok cfg editable_state submitted actor true false ts t h).1
change cfg ts t (approves actor h) =
    let (e, k) = transition_ok cfg is_submitted approved actor false true ts t h in
    moved approved ts.submitted_by actor e k
change cfg ts t (rejects actor h) =
    moved rejected ts.submitted_by ts.approved_by refl
      (transition_ok cfg is_submitted rejected actor false false ts t h).1
change cfg ts t (reopens actor h) =
    let (u, e, k) =
      then_ok_ok
        (transition cfg (λ s. is_submitted s || is_approved s) draft actor false false (some ts)) _
        t h in
    let (_, g) =
      transition_ok cfg (λ s. is_submitted s || is_approved s) draft actor false false ts u e in
    moved draft none none refl (
      ap (λ (v : Timesheet). record v { submitted_by = none; approved_by = none }) g ∙ ok-inj _ t k)
change cfg ts t (resynced leave cycle h) = resync_change cfg leave cycle ts t h

-- Editing, marking, submitting, approving, rejecting, reopening and resyncing a sheet keep its counts
-- of days those of its entries, whatever hours a request gives: the loss of pay and the half days are
-- the sums over the entries, and the days worked and the loss of pay make up the scheduled days. The
-- hours, which the columns round apart, are not among the counts, and the import of an attendance file
-- is not among the operations.
pub step-AreCounted :
    (cfg : WorkCalendarConfig) (ts t : Timesheet) → Step cfg ts t → AreCounted ts → AreCounted t
step-AreCounted cfg ts t s h = elim (change cfg ts t s) [
  | edited es _ e ↦ rw (← e) (recounted es)
  | rounded column es _ e ↦ rw (← e) (stored-AreCounted column _ (recounted es))
  | left e ↦ rw (← e) h
  | moved status submitter by _ e ↦
      rw (← e) (record { lost = h.lost; halved = h.halved; worked = h.worked })
]
  where
    recounted :
        (es : List TimesheetEntry) → AreCounted (recompute_aggregates (record ts { entries = es }))
    recounted es = IsConsistent-AreCounted _ (recompute-IsConsistent (record ts { entries = es }))

differ : (b : Bool) → b ≡ true → b ≡ false → ⊥
differ b h k = cc

-- Once a sheet is submitted or approved, no edit, transition or resync of leave changes its entries or its aggregates.
pub step-frozen :
    (cfg : WorkCalendarConfig) (ts t : Timesheet)
    → Step cfg ts t
    → editable_state ts.status ≡ false
    → (t.entries ≡ ts.entries)
      × (t.worked_days ≡ ts.worked_days)
      × (t.lop_days ≡ ts.lop_days)
      × (t.half_days ≡ ts.half_days)
      × (t.total_hours ≡ ts.total_hours)
step-frozen cfg ts t s h = elim (change cfg ts t s) [
  | edited es k _ ↦ absurd (differ (editable_state ts.status) k h)
  | rounded column es k _ ↦ absurd (differ (editable_state ts.status) k h)
  | left e ↦ rw (← e) (refl, refl, refl, refl, refl)
  | moved status submitter by _ e ↦ rw (← e) (refl, refl, refl, refl, refl)
]

edited_unchecked :
    (cfg : WorkCalendarConfig) (s : TimesheetStatus) (by submitter : Option ℕ)
    → editable_state s ≡ true
    → IsChecked cfg s by submitter
edited_unchecked cfg draft by submitter h = refl
edited_unchecked cfg rejected by submitter h = refl
edited_unchecked cfg submitted by submitter h = cc
edited_unchecked cfg approved by submitter h = cc

-- Where segregation of duties is enforced, every edit, transition and resync of leave keeps an approved
-- sheet from having been approved by the user who submitted it.
pub step-IsChecked :
    (cfg : WorkCalendarConfig) (ts t : Timesheet)
    → Step cfg ts t
    → IsChecked cfg ts.status ts.approved_by ts.submitted_by
    → IsChecked cfg t.status t.approved_by t.submitted_by
unfolding recompute_aggregates stored
step-IsChecked cfg ts t s h = elim (change cfg ts t s) [
  | edited es k e ↦ rw (← e) (edited_unchecked cfg ts.status ts.approved_by ts.submitted_by k)
  | rounded column es k e ↦
      rw (← e) (edited_unchecked cfg ts.status ts.approved_by ts.submitted_by k)
  | left e ↦ rw (← e) h
  | moved status submitter by k e ↦ rw (← e) k
]
