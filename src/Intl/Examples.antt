-- ===== src/Intl/Examples.antt =====
-- The figures for Korea, Japan and the United States at concrete wages.
use croar_backend_new.Prelude.{◌≡◌, refl}
use croar_backend_new.Prelude.Int.{pos, ◌+ℤ◌, ◌-ℤ◌}
use croar_backend_new.Money.{quantize, half_up, half_up_ℕ, ◌*ℤ◌}
use croar_backend_new.Text.{codes}
use croar_backend_new.Intl.{
  country_code, progressive_loop, progressive_tax, us_federal_tax, jp_income_tax, us_medicare,
  share, jp_employment_income_deduction,
}

program : Unit {0}
unfolding progressive_loop progressive_tax us_federal_tax half_up half_up_ℕ ◌*ℤ◌ ◌+ℤ◌ ◌-ℤ◌
    us_medicare share quantize country_code jp_employment_income_deduction jp_income_tax
program = tt

korea : country_code (codes " South Korea ") ≡ codes "KR"
unfolding program
korea = refl

-- 10_000 dollars a month: 105_400 taxable.
us_tax : us_federal_tax (pos 1_000_000) ≡ pos 152_821
unfolding program
us_tax = refl

-- The additional rate is on the whole month.
us_additional : us_medicare (pos 2_000_000) ≡ pos 47_000
unfolding program
us_additional = refl
