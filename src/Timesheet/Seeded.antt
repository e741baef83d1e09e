-- ===== src/Timesheet/Seeded.antt =====
-- The sheets that are generated, without leave.
use croar_backend_new.Prelude.{
  ℕ, ◌*◌, ◌≡◌, refl, ap, sym, ◌∙◌, Bool, true, false, not, Bool-cases, inl, inr, List, [], ◌∷◌, map,
  length, select, contains, if◌then◌else◌, arith,
}
use croar_backend_new.Prelude.Int.{ℤ, pos, ◌+ℤ◌, int_laws}
use croar_backend_new.Calendar.{is_working_day, days, weekday}
use croar_backend_new.Timesheet.{
  present, holiday, weekly_off, Timesheet, TimesheetMode, attendance, hourly, seed_status,
  seed_entry, seed_entries, new_sheet, generate, recompute_aggregates,
}
use croar_backend_new.Timesheet.Totals.{
  scheduled_of, lop_of, sum_of, IsConsistent, recompute-IsConsistent,
}

-- The status of a day without leave, by whether it is a working day.
seed_lem :
    (offs holidays : List ℕ) (d : ℕ)
    → let s = seed_status offs holidays [] d in
      (scheduled_of s ≡ (if is_working_day d offs holidays then 100 else 0)) × (lop_of s ≡ 0)
unfolding seed_status is_working_day
seed_lem offs holidays d = by_tests (contains (weekday d) offs) (contains d holidays)
  where
    by_tests :
        (a b : Bool)
        → let s = if a then weekly_off else if b then holiday else present in
          (scheduled_of s ≡ (if (if a then false else not b) then 100 else 0)) × (lop_of s ≡ 0)
    by_tests true b = (refl, refl)
    by_tests false true = (refl, refl)
    by_tests false false = (refl, refl)

seeded :
    (offs holidays : List ℕ) (ds : List ℕ)
    → let es = map (seed_entry offs holidays []) ds in
      (sum_of scheduled_of es ≡ 100 * length (select (λ d. is_working_day d offs holidays) ds))
      × (sum_of lop_of es ≡ 0)
seeded offs holidays [] = (refl, refl)
seeded offs holidays (d ∷ ds) =
    let (a, b) = seed_lem offs holidays d in
    let (a', b') = seeded offs holidays ds in
    elim (Bool-cases (is_working_day d offs holidays)) [
      | inl e ↦ (rw e (omega (arith, rw e at a, a')), omega (arith, b, b'))
      | inr e ↦ (rw e (omega (arith, rw e at a, a')), omega (arith, b, b'))
    ]

of_parts : (w : ℤ) (l s : ℕ) → w +ℤ pos l ≡ pos s → l ≡ 0 → w ≡ pos s
of_parts w l s h e = sym (add_zero w) ∙ (ap (λ (n : ℕ). w +ℤ pos n) (sym e) ∙ h)
  where
    add_zero : (a : ℤ) → a +ℤ pos 0 ≡ a
    add_zero a = omega int_laws

fresh :
    {ts : Timesheet} {n : ℕ}
    → (sum_of scheduled_of ts.entries ≡ n) × (sum_of lop_of ts.entries ≡ 0)
    → IsConsistent ts
    → (ts.lop_days ≡ 0) × (ts.worked_days ≡ pos n) × IsConsistent ts
fresh {ts = ts} (a, b) k =
    let lost = k.lost ∙ b in
    (lost, of_parts ts.worked_days ts.lop_days _ k.worked lost ∙ ap pos a, k)

-- A sheet that is generated for an employee without approved leave has no loss of pay, its days worked
-- are the working days of the calendar in the period, and its aggregates are those of its entries.
pub generate_lem :
    (employee : ℕ) (mode : TimesheetMode) (period_start period_end : ℕ) (offs holidays : List ℕ)
    → let ts = generate employee mode period_start period_end offs holidays [] in
      let worked = select (λ d. is_working_day d offs holidays) (days period_start period_end) in
      (ts.lop_days ≡ 0) × (ts.worked_days ≡ pos (100 * length worked)) × IsConsistent ts
unfolding generate seed_entries recompute_aggregates
generate_lem employee attendance period_start period_end offs holidays =
    fresh (seeded offs holidays (days period_start period_end)) (
      recompute-IsConsistent
        (new_sheet employee attendance (seed_entries period_start period_end offs holidays [])))
generate_lem employee hourly period_start period_end offs holidays =
    fresh (seeded offs holidays (days period_start period_end)) (
      recompute-IsConsistent
        (new_sheet employee hourly (seed_entries period_start period_end offs holidays [])))
