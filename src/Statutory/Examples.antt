-- ===== src/Statutory/Examples.antt =====
-- Runs of the statutory functions, and the theorems at concrete wages.
use croar_backend_new.Prelude.{◌≡◌, refl, some}
use croar_backend_new.Prelude.Int.{pos, ◌-ℤ◌}
use croar_backend_new.Money.{half_up, half_up_ℕ, ceiling, ◌*ℤ◌}
use croar_backend_new.Text.{codes}
use croar_backend_new.Statutory.{
  rupees, pf_defaults, contributory, round_rupee, round_up, compute_pf, compute_esi, compute_pt,
  pt_amount, pt_of_slabs,
}

program : Unit {0}
unfolding half_up half_up_ℕ ceiling ◌*ℤ◌ ◌-ℤ◌ round_rupee round_up contributory compute_pf
    compute_esi pt_amount pt_of_slabs compute_pt
program = tt

-- A wage of 20000 is capped at 15000.
pf_capped : compute_pf pf_defaults (rupees 20000) ≡ record {
  employee = rupees 1800;
  employer_total = rupees 1800;
  employer_eps = rupees 1250;
  employer_epf = rupees 550;
  wage_considered = rupees 15000;
}
unfolding program
pf_capped = refl

pt_maharashtra : (compute_pt (some (codes " mh ")) (rupees 9000)).amount ≡ rupees 175
unfolding program
pt_maharashtra = refl

pt_unknown : (compute_pt (some (codes "ZZ")) (rupees 9000)).amount ≡ pos 0
unfolding program
pt_unknown = refl
