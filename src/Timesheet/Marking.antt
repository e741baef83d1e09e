-- ===== src/Timesheet/Marking.antt =====
-- What an employee's own marks do to the counts of a sheet.
use croar_backend_new.Prelude.{
  ℕ, ◌*◌, ◌≡◌, refl, ap, sym, ◌∙◌, Bool, true, false, not, Option, some, List, [], ◌∷◌, ltb,
  if◌then◌else◌, arith, ◌==◌,
}
use croar_backend_new.Prelude.Int.{
  ℤ, pos, pos_part, neg_part, ◌+ℤ◌, int_laws, parts_disjoint, eq_of_parts,
}
use croar_backend_new.Http.{
  Outcome, ok, not_found, conflict, unprocessable, raise_if, then_ok, raise_if_ok, found_or_ok,
  then_ok_ok, ok-inj,
}
use croar_backend_new.Timesheet.{
  DayStatus, PayrollCycleStatus, TimesheetEntry, Timesheet, non_working, leave_locked,
  editable_state, editable_cycle, recompute_aggregates,
}
use croar_backend_new.Timesheet.Edits.{
  EntryIn, or_else, apply_item, on_date, bad_mark, mark_entry, mark_item, mark_items,
  self_mark_entries,
}
use croar_backend_new.Timesheet.Hours.{in_units, stored, sum_of-map, stored-AreCounted}
use croar_backend_new.Timesheet.Totals.{
  scheduled_of, lop_of, half_of, sum_of, AreCounted, IsConsistent-AreCounted,
  recompute-IsConsistent,
}

-- The three counts of a status.
abbrev pub Same : DayStatus → DayStatus → Type 0
Same d e = (scheduled_of e ≡ scheduled_of d) × (lop_of e ≡ lop_of d) × (half_of e ≡ half_of d)

-- Present and work from home count alike.
or_else-Same :
    (d : DayStatus) (m : Option DayStatus)
    → non_working d ≡ false
    → leave_locked d ≡ false
    → bad_mark m ≡ false
    → Same d (or_else m d)
or_else-Same d m a b c = (ground arith, ground arith, ground arith)

mark_entry-Same :
    (today : ℕ) (i : EntryIn) (e e' : TimesheetEntry)
    → mark_entry today i e ≡ ok e'
    → Same e.day_status e'.day_status
unfolding mark_entry apply_item
mark_entry-Same today i e e' h =
    let (_, h₁) = raise_if_ok (ltb today e.entry_date) unprocessable _ e' h in
    branch (non_working e.day_status) refl h₁
  where
    marked : Outcome TimesheetEntry
    marked =
        raise_if (leave_locked e.day_status) conflict
          (raise_if (bad_mark i.day_status) unprocessable (ok (apply_item i e)))

    branch :
        (b : Bool)
        → non_working e.day_status ≡ b
        → (if b then ok e else marked) ≡ ok e'
        → Same e.day_status e'.day_status
    branch true n k = rw (← ok-inj e e' k) (refl, refl, refl)
    branch false n k =
        let (a, k₁) = raise_if_ok (leave_locked e.day_status) conflict _ e' k in
        let (c, k₂) = raise_if_ok (bad_mark i.day_status) unprocessable _ e' k₁ in
        rw (← ok-inj _ e' k₂) (or_else-Same e.day_status i.day_status n a c)

-- The three counts of a list of entries.
abbrev pub SameSums : List TimesheetEntry → List TimesheetEntry → Type 0
SameSums xs ys =
    (sum_of scheduled_of ys ≡ sum_of scheduled_of xs)
    × (sum_of lop_of ys ≡ sum_of lop_of xs)
    × (sum_of half_of ys ≡ sum_of half_of xs)

mark_item-SameSums :
    (today : ℕ) (i : EntryIn) (es es' : List TimesheetEntry)
    → mark_item today i es ≡ ok es'
    → SameSums es es'
unfolding mark_item
mark_item-SameSums today i [] es' h = rw (← ok-inj [] es' h) (refl, refl, refl)
mark_item-SameSums today i (e ∷ es) es' h =
    branch (on_date i.entry_date e) (λ fs m. mark_item-SameSums today i es fs m) h
  where
    branch :
        (b : Bool)
        → ((fs : List TimesheetEntry) → mark_item today i es ≡ ok fs → SameSums es fs)
        → (if b
            then then_ok (mark_entry today i e) (λ e'. ok (e' ∷ es))
            else then_ok (mark_item today i es) (λ fs. ok (e ∷ fs)))
          ≡ ok es'
        → SameSums (e ∷ es) es'
    branch true ih k =
        let (e', m, k₁) = then_ok_ok (mark_entry today i e) (λ e'. ok (e' ∷ es)) es' k in
        let (a, b, c) = mark_entry-Same today i e e' m in
        rw (← ok-inj (e' ∷ es) es' k₁) (omega (arith, a), omega (arith, b), omega (arith, c))
    branch false ih k =
        let (fs, m, k₁) = then_ok_ok (mark_item today i es) (λ fs. ok (e ∷ fs)) es' k in
        let (a, b, c) = ih fs m in
        rw (← ok-inj (e ∷ fs) es' k₁) (omega (arith, a), omega (arith, b), omega (arith, c))

mark_items-SameSums :
    (today : ℕ) (items : List EntryIn) (es es' : List TimesheetEntry)
    → mark_items today items es ≡ ok es'
    → SameSums es es'
unfolding mark_items
mark_items-SameSums today [] es es' h = rw (← ok-inj es es' h) (refl, refl, refl)
mark_items-SameSums today (i ∷ items) es es' h =
    let (fs, m, k) = then_ok_ok (mark_item today i es) (λ fs. mark_items today items fs) es' h in
    let (a, b, c) = mark_item-SameSums today i es fs m in
    let (a', b', c') = mark_items-SameSums today items fs es' k in (a' ∙ a, b' ∙ b, c' ∙ c)

cancel : (a b : ℤ) (m n : ℕ) → a +ℤ pos m ≡ b +ℤ pos n → m ≡ n → a ≡ b
cancel a b m n h e = eq_of_parts a b (
    omega (
      int_laws,
      ap pos_part h,
      ap neg_part h,
      e,
      parts_disjoint (a +ℤ pos m),
      parts_disjoint (b +ℤ pos n),
    ))

units-SameSums :
    (units : ℕ) (es fs : List TimesheetEntry) → SameSums (in_units units es) fs → SameSums es fs
unfolding in_units
units-SameSums units es fs (a, b, c) =
    let f = λ (h : ℕ). h * units in
    (a ∙ sum_of-map scheduled_of f es, b ∙ sum_of-map lop_of f es, c ∙ sum_of-map half_of f es)

kept :
    (column : ℕ → ℕ) (u : Timesheet) (es : List TimesheetEntry)
    → SameSums u.entries es
    → AreCounted u
    → let t = stored column (recompute_aggregates (record u { entries = es })) in
      (t.worked_days ≡ u.worked_days)
      × (t.lop_days ≡ u.lop_days)
      × (t.half_days ≡ u.half_days)
      × AreCounted t
unfolding recompute_aggregates stored
kept column u es (a, b, c) before =
    let t = recompute_aggregates (record u { entries = es }) in
    let k = IsConsistent-AreCounted t (recompute-IsConsistent (record u { entries = es })) in
    let lost : t.lop_days ≡ u.lop_days = k.lost ∙ b ∙ sym before.lost in
    (
      cancel t.worked_days u.worked_days t.lop_days u.lop_days
          (k.worked ∙ ap pos a ∙ sym before.worked) lost,
      lost,
      k.halved ∙ c ∙ sym before.halved,
      stored-AreCounted column t k,
    )

-- What an employee marks on the own sheet, with hours of any decimals, leaves the days worked, the loss
-- of pay and the half days as they were, and still those of the entries, where they were those of the
-- entries before.
pub self_mark_keeps :
    (units : ℕ) (column : ℕ → ℕ) (today employee : ℕ) (found : Option Timesheet)
    (cycle : Option PayrollCycleStatus) (items : List EntryIn) (ts t : Timesheet)
    → found ≡ some ts
    → AreCounted ts
    → self_mark_entries units column today employee found cycle items ≡ ok t
    → (t.worked_days ≡ ts.worked_days)
      × (t.lop_days ≡ ts.lop_days)
      × (t.half_days ≡ ts.half_days)
      × AreCounted t
unfolding self_mark_entries
self_mark_keeps units column today employee found cycle items ts t f before h =
    let (u, e, h₁) = found_or_ok found not_found _ t h in
    let same : u ≡ ts = some_inj u ts (sym e ∙ f) in
    let (_, h₂) = raise_if_ok (not (u.employee == employee)) not_found _ t h₁ in
    let (_, h₃) = raise_if_ok (not (editable_state u.status)) conflict _ t h₂ in
    let (c, _, h₄) = found_or_ok cycle not_found _ t h₃ in
    let (_, h₅) = raise_if_ok (not (editable_cycle c)) conflict _ t h₄ in
    let (es, m, h₆) = then_ok_ok (mark_items today items (in_units units u.entries)) _ t h₅ in
    rw (← same) (
      rw (← ok-inj _ t h₆) (
        kept column u es
          (units-SameSums units u.entries es
            (mark_items-SameSums today items (in_units units u.entries) es m))
          (rw (← same) at before)))
  where
    some_inj : (a b : Timesheet) → some a ≡ some b → a ≡ b
    some_inj a b k = cc
