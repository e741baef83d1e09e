-- ===== src/Timesheet/Overlay.antt =====
-- The overlay of leave: what a resync does, and that it agrees with generating the sheet anew.
use croar_backend_new.Prelude.{
  ℕ, ◌≡◌, refl, ap, sym, ◌∙◌, Bool, true, false, not, ◌&&◌, ◌||◌, Bool-cases, inl, inr, Option,
  none, some, All, ◌==◌, List, [], ◌∷◌, map, contains, any, if◌then◌else◌, arith,
}
use croar_backend_new.Http.{Outcome, ok}
use croar_backend_new.Calendar.{days, weekday}
use croar_backend_new.Timesheet.{
  DayStatus, present, holiday, weekly_off, TimesheetEntry, Timesheet, attendance,
  PayrollCycleStatus, leave_overlay, leave_locked, editable_cycle, wfh, leave_on, or_present,
  seed_status, seed_entry, seed_entries, new_sheet, generate, recompute_aggregates,
}
use croar_backend_new.Timesheet.Status.{overlay, moves, same_status, resync_leave}
use croar_backend_new.Timesheet.Lifecycle.{resync_leave_ok}

same_status_sound : (a b : DayStatus) → same_status a b ≡ true → a ≡ b
same_status_sound a b h = ground arith

or_false : (a b : Bool) → (a || b) ≡ false → (a ≡ false) × (b ≡ false)
or_false true b h = cc
or_false false b h = (refl, h)

not-true : (b : Bool) → not b ≡ false → b ≡ true
not-true true h = refl
not-true false h = cc

overlay_still :
    (leave : List (ℕ × DayStatus)) (e : TimesheetEntry)
    → moves leave e ≡ false
    → overlay leave e ≡ e
unfolding overlay
overlay_still leave e h = branch (leave_overlay e.day_status) h
  where
    target : DayStatus
    target = or_present (leave_on e.entry_date leave)

    branch :
        (b : Bool)
        → (b && not (same_status e.day_status target)) ≡ false
        → (if b then record e { day_status = target } else e) ≡ e
    branch true k =
        ap (λ (d : DayStatus). record e { day_status = d })
          (sym (same_status_sound e.day_status target (not-true _ k)))
    branch false k = refl

overlay_all_still :
    (leave : List (ℕ × DayStatus)) (es : List TimesheetEntry)
    → any (moves leave) es ≡ false
    → map (overlay leave) es ≡ es
overlay_all_still leave [] h = refl
overlay_all_still leave (e ∷ es) h =
    let (a, b) = or_false (moves leave e) (any (moves leave) es) h in
    rw (overlay_still leave e a, overlay_all_still leave es b) refl

-- What a decision on leave makes of the status of a day.
abbrev pub revised : DayStatus → Option DayStatus → DayStatus
revised wfh leave = wfh
revised holiday leave = holiday
revised weekly_off leave = weekly_off
revised _ none = present
revised _ (some s) = s

abbrev pub revise : List (ℕ × DayStatus) → TimesheetEntry → TimesheetEntry
revise leave e = record e { day_status = revised e.day_status (leave_on e.entry_date leave) }

overlay-revise :
    (leave : List (ℕ × DayStatus)) (e : TimesheetEntry) → overlay leave e ≡ revise leave e
unfolding overlay
overlay-revise leave e = by_status e.day_status (leave_on e.entry_date leave)
  where
    by_status :
        (d : DayStatus) (l : Option DayStatus)
        → (if leave_overlay d
            then record e { day_status = or_present l }
            else record e { day_status = d })
          ≡ record e { day_status = revised d l }
    by_status d l = ground arith

overlay-revise_all :
    (leave : List (ℕ × DayStatus)) (es : List TimesheetEntry)
    → map (overlay leave) es ≡ map (revise leave) es
overlay-revise_all leave [] = refl
overlay-revise_all leave (e ∷ es) = rw (overlay-revise leave e, overlay-revise_all leave es) refl

-- A resync that is not skipped leaves work from home, holidays and weekly offs as they are, and gives
-- every other day the status of its approved leave, or makes it present where there is none, also where
-- the absence was recorded by hand.
pub resync_leave-revise :
    (leave : List (ℕ × DayStatus)) (cycle : Option PayrollCycleStatus) (ts t : Timesheet)
    → resync_leave leave (some ts) cycle ≡ ok (some t)
    → t.entries ≡ map (revise leave) ts.entries
unfolding recompute_aggregates
resync_leave-revise leave cycle ts t h =
    let (_, k) = resync_leave_ok leave cycle ts t h in
    elim k [
      | inl e ↦ rw (← e) (overlay-revise_all leave ts.entries)
      | inr (still, e) ↦
          rw (← e)
            (sym (overlay_all_still leave ts.entries still) ∙ overlay-revise_all leave ts.entries)
    ]

-- A day has no leave, or a status of leave.
abbrev or_leave : Option DayStatus → Bool
or_leave none = true
or_leave (some s) = leave_locked s

leave_on-or_leave :
    (d : ℕ) (leave : List (ℕ × DayStatus))
    → All (λ p. leave_locked p.1 ≡ true) leave
    → or_leave (leave_on d leave) ≡ true
leave_on-or_leave d [] all = refl
leave_on-or_leave d ((day, s) ∷ leave) (l, all) = elim (Bool-cases (day == d)) [
  | inl y ↦ rw y l
  | inr n ↦ rw n (leave_on-or_leave d leave all)
]

revised_leave :
    (l m : Option DayStatus) → or_leave l ≡ true → revised (or_present l) m ≡ or_present m
revised_leave l m h = ground arith

reseeded :
    (offs holidays : List ℕ) (before after : List (ℕ × DayStatus)) (d : ℕ)
    → All (λ p. leave_locked p.1 ≡ true) before
    → revised (seed_status offs holidays before d) (leave_on d after)
      ≡ seed_status offs holidays after d
unfolding seed_status
reseeded offs holidays before after d all =
    let same =
      revised_leave (leave_on d before) (leave_on d after) (leave_on-or_leave d before all) in
    elim (Bool-cases (contains (weekday d) offs)) [
      | inl y ↦ rw y refl
      | inr n ↦ elim (Bool-cases (contains d holidays)) [
        | inl y ↦ rw (n, y) refl
        | inr m ↦ rw (n, m) same
      ]
    ]

reseed_days :
    (offs holidays : List ℕ) (before after : List (ℕ × DayStatus)) (ds : List ℕ)
    → All (λ p. leave_locked p.1 ≡ true) before
    → map (revise after) (map (seed_entry offs holidays before) ds)
      ≡ map (seed_entry offs holidays after) ds
reseed_days offs holidays before after [] all = refl
reseed_days offs holidays before after (d ∷ ds) all =
    rw (reseeded offs holidays before after d all, reseed_days offs holidays before after ds all)
      refl

-- Resyncing an attendance sheet as it was generated from days with statuses of leave, for the leave that
-- is approved by then, goes through where the payroll cycle can be edited, and leaves exactly the sheet
-- that would be generated for that leave.
pub resync_leave-generate :
    (employee period_start period_end : ℕ) (offs holidays : List ℕ)
    (before after : List (ℕ × DayStatus)) (cycle : PayrollCycleStatus)
    → editable_cycle cycle ≡ true
    → All (λ p. leave_locked p.1 ≡ true) before
    → let sheet = generate employee attendance period_start period_end offs holidays in
      resync_leave after (some (sheet before)) (some cycle) ≡ ok (some (sheet after))
unfolding resync_leave generate seed_entries recompute_aggregates
resync_leave-generate employee period_start period_end offs holidays before after cycle editable
      all =
    rw editable (branch (any (moves after) (entries before)) refl)
  where
    entries : List (ℕ × DayStatus) → List TimesheetEntry
    entries leave = map (seed_entry offs holidays leave) (days period_start period_end)

    sheet : List TimesheetEntry → Timesheet
    sheet es = recompute_aggregates (new_sheet employee attendance es)

    same : map (overlay after) (entries before) ≡ entries after
    same =
        overlay-revise_all after (entries before)
        ∙ reseed_days offs holidays before after (days period_start period_end) all

    branch :
        (b : Bool)
        → any (moves after) (entries before) ≡ b
        → (if b
            then Outcome.ok (some (sheet (map (overlay after) (entries before))))
            else ok (some (sheet (entries before))))
          ≡ ok (some (sheet (entries after)))
    branch true n = ap (λ (es : List TimesheetEntry). ok (some (sheet es))) same
    branch false n =
        ap (λ (es : List TimesheetEntry). ok (some (sheet es)))
          (sym (overlay_all_still after (entries before) n) ∙ same)
