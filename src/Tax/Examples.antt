-- ===== src/Tax/Examples.antt =====
-- The income tax at concrete incomes.
use croar_backend_new.Prelude.{◌≡◌, refl, arith}
use croar_backend_new.Prelude.Int.{pos, ◌+ℤ◌, ◌-ℤ◌, ◌≤ℤ◌}
use croar_backend_new.Money.{◌*ℤ◌, half_up, half_up_ℕ}
use croar_backend_new.Tax.{
  TdsInput, new, new_regime_slabs, slab_loop, slab_tax, tds_defaults, compute_tds, rebate,
  annual_tax, monthly, taxable_income,
}
use croar_backend_new.Tax.Slabs.{marginal, slab_tax-marginal}
use croar_backend_new.Tax.Rebate.{compute_tds_mono}

-- A gross of 1_500_000 rupees in the new regime.
abbrev sample : TdsInput
sample = record {
  annual_gross = pos 150_000_000;
  regime = new;
  declarations = record {
    declared_80c = pos 0;
    declared_80d = pos 0;
    declared_home_loan_interest = pos 0;
    declared_other = pos 0;
  };
  prev_employer_income = pos 0;
  prev_employer_tds = pos 0;
}

-- 4% of 93_750 rupees on top of them, over twelve months.
sample_tds : (compute_tds tds_defaults sample).monthly_tds ≡ pos 812_500
unfolding compute_tds taxable_income slab_tax slab_loop rebate annual_tax monthly half_up half_up_ℕ
    ◌*ℤ◌ ◌+ℤ◌ ◌-ℤ◌
sample_tds = refl

slab_tax-marginal_example :
    slab_tax (pos 142_500_000) new_regime_slabs ≡ pos (marginal 0 new_regime_slabs 142_500_000)
slab_tax-marginal_example = slab_tax-marginal 142_500_000 new_regime_slabs (ground arith)

compute_tds_mono_example :
    (compute_tds tds_defaults sample).monthly_tds
    ≤ℤ (compute_tds tds_defaults (record sample { annual_gross = pos 160_000_000 })).monthly_tds
compute_tds_mono_example = compute_tds_mono tds_defaults sample (pos 160_000_000) (omega arith)
