-- ===== src/Intl.antt =====
-- app/services/payroll/statutory_intl.py: social insurance and income tax of Korea, Japan and the
-- United States. Amounts are in hundredths of the currency. The tax on brackets is a sum of amounts
-- times whole percents.
pub mod Brackets
pub mod IncomeTax
mod Examples
use croar_backend_new.Prelude.{
  ℕ, ◌+◌, ◌*◌, Bool, true, false, ◌||◌, not, Option, none, some, List, [], ◌∷◌, ◌++◌, ltb,
  if◌then◌else◌,
}
use croar_backend_new.Prelude.Int.{ℤ, pos, ◌+ℤ◌, ◌-ℤ◌, ltb_ℤ, leb_ℤ, min_ℤ, max_ℤ}
use croar_backend_new.Money.{Money, Decimal, decimal, cents, multiply, quantize, ◌*ℤ◌, half_up}
use croar_backend_new.Text.{Text, codes, strip, upper, lower, text_eq, lookup_text}
use croar_backend_new.Line.{Pay, pay}
use croar_backend_new.Tax.{Band}

-- Whole units of the currency.
abbrev pub units : ℕ → Money
units n = pos (n * 100)

abbrev aliases : List (Text × Text)
aliases =
    (codes "korea", codes "KR")
    ∷ (codes "south korea", codes "KR")
    ∷ (codes "republic of korea", codes "KR")
    ∷ (codes "kr", codes "KR")
    ∷ (codes "kor", codes "KR")
    ∷ (codes "japan", codes "JP")
    ∷ (codes "jp", codes "JP")
    ∷ (codes "jpn", codes "JP")
    ∷ (codes "united states", codes "US")
    ∷ (codes "usa", codes "US")
    ∷ (codes "us", codes "US")
    ∷ (codes "u.s.", codes "US")
    ∷ (codes "united states of america", codes "US")
    ∷ (codes "india", codes "IN")
    ∷ (codes "in", codes "IN")
    ∷ (codes "ind", codes "IN")
    ∷ []

abbrev value_or {ℓ} : {A : Type ℓ} → A → Option A → A
value_or a none = a
value_or _ (some b) = b

-- `country_code`; a missing country is the empty text.
unfoldable pub country_code : Text → Text
country_code country =
    value_or (upper (strip country)) (lookup_text (lower (strip country)) aliases)

-- The loop of `_progressive_tax`, over `lower` and `tax`.
unfoldable pub progressive_loop : ℤ → List Band → ℤ → ℤ → ℤ
progressive_loop taxable [] lower tax = tax
progressive_loop taxable ((none, rate) ∷ brackets) lower tax =
    let rest =
      progressive_loop taxable brackets taxable (tax +ℤ ◌*ℤ◌ (taxable -ℤ lower) (pos rate)) in
    if leb_ℤ taxable lower then tax else rest
progressive_loop taxable ((some upper, rate) ∷ brackets) lower tax =
    let top = if ltb_ℤ taxable upper then taxable else upper in
    let rest = progressive_loop taxable brackets upper (tax +ℤ ◌*ℤ◌ (top -ℤ lower) (pos rate)) in
    if leb_ℤ taxable lower then tax else rest

unfoldable pub progressive_tax : ℤ → List Band → ℤ
progressive_tax taxable brackets =
    let tax = progressive_loop taxable brackets (pos 0) (pos 0) in
    if ltb_ℤ (pos 0) tax then tax else pos 0

-- `_q(amount * rate)`, for a rate of `n / d`.
unfoldable pub share : Money → ℕ → ℕ → Money
share amount n d = quantize (multiply (cents amount) (decimal n d))

pub record Intl : Type 0 where
  pub employee : List Pay
  pub employer : List Pay
  pub income_tax : Money

abbrev pub kr_brackets : List Band
kr_brackets =
    (some (units 14_000_000), 6)
    ∷ (some (units 50_000_000), 15)
    ∷ (some (units 88_000_000), 24)
    ∷ (some (units 150_000_000), 35)
    ∷ (some (units 300_000_000), 38)
    ∷ (some (units 500_000_000), 40)
    ∷ (some (units 1_000_000_000), 42)
    ∷ (none, 45)
    ∷ []

-- A tax of whole percents of hundredths, over twelve months.
unfoldable pub kr_income_tax : Money → Money
kr_income_tax gross =
    let taxable = max_ℤ (pos 0) (◌*ℤ◌ gross (pos 12) -ℤ units 1_500_000) in
    half_up (progressive_tax taxable kr_brackets) 1200

unfoldable pub compute_kr : Money → Intl
compute_kr gross =
    let pension = share (min_ℤ gross (units 6_170_000)) 45 1000 in
    let health = share gross 3545 100_000 in
    let ltc = share health 1295 10_000 in
    let employment = share gross 9 1000 in
    let income_tax = kr_income_tax gross in
    let local_tax = share income_tax 10 100 in
    record {
      employee =
          pay (codes "KR_PENSION") pension
          ∷ pay (codes "KR_HEALTH") health
          ∷ pay (codes "KR_LTC") ltc
          ∷ pay (codes "KR_EMP") employment
          ∷ pay (codes "KR_TAX") income_tax
          ∷ pay (codes "KR_LOCAL") local_tax
          ∷ [];
      employer =
          pay (codes "KR_PENSION_ER") pension
          ∷ pay (codes "KR_HEALTH_ER") health
          ∷ pay (codes "KR_LTC_ER") ltc
          ∷ pay (codes "KR_EMP_ER") employment
          ∷ pay (codes "KR_ACCIDENT_ER") (share gross 7 1000)
          ∷ [];
      income_tax = income_tax +ℤ local_tax;
    }

-- The bounds in 1 / 10_000 of a yen, the scale of an income after the deduction.
abbrev pub yen : ℕ → ℤ
yen n = pos (n * 10_000)

abbrev pub jp_brackets : List Band
jp_brackets =
    (some (yen 1_950_000), 5)
    ∷ (some (yen 3_300_000), 10)
    ∷ (some (yen 6_950_000), 20)
    ∷ (some (yen 9_000_000), 23)
    ∷ (some (yen 18_000_000), 33)
    ∷ (some (yen 40_000_000), 40)
    ∷ (none, 45)
    ∷ []

-- `_jp_employment_income_deduction`, in 1 / 10_000 of a yen.
unfoldable pub jp_employment_income_deduction : Money → ℤ
jp_employment_income_deduction annual =
    if leb_ℤ annual (units 1_625_000)
    then yen 550_000
    else if leb_ℤ annual (units 1_800_000)
    then ◌*ℤ◌ annual (pos 40) -ℤ yen 100_000
    else if leb_ℤ annual (units 3_600_000)
    then ◌*ℤ◌ annual (pos 30) +ℤ yen 80_000
    else if leb_ℤ annual (units 6_600_000)
    then ◌*ℤ◌ annual (pos 20) +ℤ yen 440_000
    else if leb_ℤ annual (units 8_500_000)
    then ◌*ℤ◌ annual (pos 10) +ℤ yen 1_100_000
    else yen 1_950_000

unfoldable pub jp_income_tax : Money → Money
jp_income_tax gross =
    let annual = ◌*ℤ◌ gross (pos 12) in
    let taxable =
      max_ℤ (pos 0)
        (◌*ℤ◌ annual (pos 100) -ℤ jp_employment_income_deduction annual -ℤ yen 480_000) in
    half_up (progressive_tax taxable jp_brackets) 120_000

-- `age is None or age >= 40`
abbrev pub include_ltc : Option ℕ → Bool
include_ltc none = true
include_ltc (some age) = not (ltb age 40)

unfoldable pub compute_jp : Money → Option ℕ → Intl
compute_jp gross age =
    let health = share gross 499 10_000 in
    let ltc = if include_ltc age then share gross 80 10_000 else pos 0 in
    let pension = share (min_ℤ gross (units 650_000)) 915 10_000 in
    let employment = share gross 6 1000 in
    let income_tax = jp_income_tax gross in
    record {
      employee =
          (pay (codes "JP_HEALTH") health ∷ [])
          ++ (if include_ltc age then pay (codes "JP_LTC") ltc ∷ [] else [])
          ++ (pay (codes "JP_PENSION") pension
              ∷ pay (codes "JP_EMP") employment
              ∷ pay (codes "JP_TAX") income_tax
              ∷ []);
      employer =
          (pay (codes "JP_HEALTH_ER") health ∷ [])
          ++ (if include_ltc age then pay (codes "JP_LTC_ER") ltc ∷ [] else [])
          ++ (pay (codes "JP_PENSION_ER") pension
              ∷ pay (codes "JP_EMP_ER") (share gross 95 10_000)
              ∷ pay (codes "JP_ACCIDENT_ER") (share gross 3 1000)
              ∷ []);
      income_tax = income_tax;
    }

abbrev pub us_brackets : List Band
us_brackets =
    (some (units 11_600), 10)
    ∷ (some (units 47_150), 12)
    ∷ (some (units 100_525), 22)
    ∷ (some (units 191_950), 24)
    ∷ (some (units 243_725), 32)
    ∷ (some (units 609_350), 35)
    ∷ (none, 37)
    ∷ []

unfoldable pub us_federal_tax : Money → Money
us_federal_tax gross =
    let taxable = max_ℤ (pos 0) (◌*ℤ◌ gross (pos 12) -ℤ units 14_600) in
    half_up (progressive_tax taxable us_brackets) 1200

-- The employee's Medicare share, with the additional rate on the whole month above the threshold.
unfoldable pub us_medicare : Money → Money
us_medicare gross =
    let medicare = share gross 145 10_000 in
    if ltb_ℤ (units 200_000) (◌*ℤ◌ gross (pos 12))
    then quantize (record { num = ◌*ℤ◌ medicare (pos 1000) +ℤ ◌*ℤ◌ gross (pos 9); den = 100_000 })
    else medicare

-- The monthly base of the unemployment tax, a twelfth of 7_000, in 1 / 1_200 of a dollar.
abbrev futa_base : Money → ℤ
futa_base gross = min_ℤ (◌*ℤ◌ gross (pos 12)) (units 7_000)

unfoldable pub compute_us : Money → Option Decimal → Intl
compute_us gross state_tax_rate =
    let social_security = share (min_ℤ gross (units 14_050)) 62 1000 in
    let medicare = us_medicare gross in
    let federal_tax = us_federal_tax gross in
    let state_tax = quantize (multiply (cents gross) (value_or (decimal 0 1) state_tax_rate)) in
    record {
      employee =
          (pay (codes "US_SS") social_security
            ∷ pay (codes "US_MEDICARE") medicare
            ∷ pay (codes "US_FED_TAX") federal_tax
            ∷ [])
          ++ (if ltb_ℤ (pos 0) state_tax then pay (codes "US_STATE_TAX") state_tax ∷ [] else []);
      employer =
          pay (codes "US_SS_ER") social_security
          ∷ pay (codes "US_MEDICARE_ER") (share gross 145 10_000)
          ∷ pay (codes "US_FUTA_ER")
              (quantize (record { num = ◌*ℤ◌ (futa_base gross) (pos 6); den = 1_200_000 }))
          ∷ [];
      income_tax = federal_tax +ℤ state_tax;
    }

-- `compute`: none for a country that this module does not handle.
unfoldable pub compute : Text → Money → Option ℕ → Option Decimal → Option Intl
compute country gross age state_tax_rate =
    let code = country_code country in
    if text_eq code (codes "KR")
    then some (compute_kr gross)
    else if text_eq code (codes "JP")
    then some (compute_jp gross age)
    else if text_eq code (codes "US")
    then some (compute_us gross state_tax_rate)
    else none
