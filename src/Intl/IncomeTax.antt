-- ===== src/Intl/IncomeTax.antt =====
-- The income taxes of the three countries as functions of the gross
-- (app/services/payroll/statutory_intl.py).
use croar_backend_new.Prelude.{
  ℕ, ◌+◌, ◌-◌, ◌*◌, ◌≤◌, ◌<◌, ◌≡◌, refl, List, Bool-cases, inl, inr, ◌⊎◌, arith, leb, ap,
}
use croar_backend_new.Prelude.Int.{ℤ, pos, negsuc, ◌+ℤ◌, ◌-ℤ◌, ◌≤ℤ◌, max_ℤ, int_laws}
use croar_backend_new.Money.{◌*ℤ◌, half_up}
use croar_backend_new.Money.Rounding.{half_up_mono, times_mono}
use croar_backend_new.Tax.{Band}
use croar_backend_new.Tax.Slabs.{marginal, IsAscending, marginal_mono}
use croar_backend_new.Intl.{
  progressive_tax, kr_brackets, jp_brackets, us_brackets, kr_income_tax, us_federal_tax, units,
  jp_income_tax, jp_employment_income_deduction, yen,
}
use croar_backend_new.Intl.Brackets.{progressive_tax-marginal}

nonneg_mono :
    (a b : ℤ) → a ≤ℤ b → (m n : ℕ) × (max_ℤ (pos 0) a ≡ pos m) × (max_ℤ (pos 0) b ≡ pos n) × (m ≤ n)
nonneg_mono (pos a) (pos b) h = (a, b, ground arith, ground arith, omega arith)
nonneg_mono (pos a) (negsuc b) h = absurd (omega arith)
nonneg_mono (negsuc a) (pos b) h = (0, b, ground arith, ground arith, omega arith)
nonneg_mono (negsuc a) (negsuc b) h = (0, 0, ground arith, ground arith, omega arith)

progressive_tax_mono :
    (brackets : List Band) (a b : ℤ)
    → IsAscending 0 brackets
    → a ≤ℤ b
    → progressive_tax (max_ℤ (pos 0) a) brackets ≤ℤ progressive_tax (max_ℤ (pos 0) b) brackets
progressive_tax_mono brackets a b asc h =
    let (m, n, em, en, le) = nonneg_mono a b h in
    let grows = marginal_mono 0 brackets m (n - m) in
    let e : m + (n - m) ≡ n = omega arith in
    let p = progressive_tax-marginal m brackets asc in
    let q = progressive_tax-marginal n brackets asc in
    rw (em, en, p.0, q.0) (omega (arith, ap (marginal 0 brackets) e))

-- The pieces of the deduction from Japanese employment income, in 1 / 10_000 of a yen.
abbrev IsDeduction : ℕ → ℕ → Type 0
IsDeduction m d =
    ((m ≤ 162_500_000) × (d ≡ 5_500_000_000))
    ⊎ ((162_500_000 < m) × (m ≤ 180_000_000) × (d + 1_000_000_000 ≡ m * 40))
    ⊎ ((180_000_000 < m) × (m ≤ 360_000_000) × (d ≡ m * 30 + 800_000_000))
    ⊎ ((360_000_000 < m) × (m ≤ 660_000_000) × (d ≡ m * 20 + 4_400_000_000))
    ⊎ ((660_000_000 < m) × (m ≤ 850_000_000) × (d ≡ m * 10 + 11_000_000_000))
    ⊎ ((850_000_000 < m) × (d ≡ 19_500_000_000))

minus : (m : ℕ) → 162_500_000 < m → pos (m * 40) -ℤ yen 100_000 ≡ pos (m * 40 - 1_000_000_000)
unfolding ◌-ℤ◌
minus m h = ground arith

deduction_lem :
    (m : ℕ) → (d : ℕ) × (jp_employment_income_deduction (pos m) ≡ pos d) × IsDeduction m d
unfolding jp_employment_income_deduction ◌*ℤ◌ ◌+ℤ◌
deduction_lem m = elim (Bool-cases (leb (m + 0) (162_500_000 + 0))) [
  | inl a ↦ (5_500_000_000, rw a refl, inl (ground arith, refl))
  | inr a ↦ elim (Bool-cases (leb (m + 0) (180_000_000 + 0))) [
    | inl b ↦ (
      m * 40 - 1_000_000_000,
      rw (a, b) (minus m (ground arith)),
      inr (inl (ground arith, ground arith, ground arith)),
    )
    | inr b ↦ elim (Bool-cases (leb (m + 0) (360_000_000 + 0))) [
      | inl c ↦ (
        m * 30 + 800_000_000,
        rw (a, b, c) (ground arith),
        inr (inr (inl (ground arith, ground arith, refl))),
      )
      | inr c ↦ elim (Bool-cases (leb (m + 0) (660_000_000 + 0))) [
        | inl d ↦ (
          m * 20 + 4_400_000_000,
          rw (a, b, c, d) (ground arith),
          inr (inr (inr (inl (ground arith, ground arith, refl)))),
        )
        | inr d ↦ elim (Bool-cases (leb (m + 0) (850_000_000 + 0))) [
          | inl e ↦ (
            m * 10 + 11_000_000_000,
            rw (a, b, c, d, e) (ground arith),
            inr (inr (inr (inr (inl (ground arith, ground arith, refl))))),
          )
          | inr e ↦ (
            19_500_000_000,
            rw (a, b, c, d, e) refl,
            inr (inr (inr (inr (inr (ground arith, refl))))),
          )
        ]
      ]
    ]
  ]
]

gap_mono : (m n d e : ℕ) → m ≤ n → IsDeduction m d → IsDeduction n e → m * 100 + e ≤ n * 100 + d
gap_mono m n d e h p q = ground arith

-- The deduction rises more slowly than the income.
net_mono :
    (m n : ℕ)
    → m ≤ n
    → ◌*ℤ◌ (pos m) (pos 100) -ℤ jp_employment_income_deduction (pos m)
      ≤ℤ ◌*ℤ◌ (pos n) (pos 100) -ℤ jp_employment_income_deduction (pos n)
unfolding ◌*ℤ◌
net_mono m n h =
    let (d, ed, p) = deduction_lem m in
    let (e, ee, q) = deduction_lem n in rw (ed, ee) (omega (int_laws, gap_mono m n d e h p q))

minus_mono : (a b c : ℤ) → a ≤ℤ b → a -ℤ c ≤ℤ b -ℤ c
minus_mono a b c h = omega int_laws

times_pos : (m k : ℕ) → ◌*ℤ◌ (pos m) (pos k) ≡ pos (m * k)
unfolding ◌*ℤ◌
times_pos m k = refl

twelve :
    (a b : ℕ)
    → a ≤ b
    → let year = λ (n : ℕ). ◌*ℤ◌ (pos n) (pos 12) in
      ◌*ℤ◌ (year a) (pos 100) -ℤ jp_employment_income_deduction (year a)
      ≤ℤ ◌*ℤ◌ (year b) (pos 100) -ℤ jp_employment_income_deduction (year b)
twelve a b h = rw (times_pos a 12, times_pos b 12) (net_mono (a * 12) (b * 12) (omega arith))

-- The tax on an income at least zero, rounded to the cent.
rounded_mono :
    (brackets : List Band) (d : ℕ) (a b c : ℤ)
    → 0 < d
    → IsAscending 0 brackets
    → a ≤ℤ b
    → half_up (progressive_tax (max_ℤ (pos 0) (a -ℤ c)) brackets) d
      ≤ℤ half_up (progressive_tax (max_ℤ (pos 0) (b -ℤ c)) brackets) d
rounded_mono brackets d a b c h asc le =
    half_up_mono (progressive_tax (max_ℤ (pos 0) (a -ℤ c)) brackets)
      (progressive_tax (max_ℤ (pos 0) (b -ℤ c)) brackets) d h
      (progressive_tax_mono brackets (a -ℤ c) (b -ℤ c) asc (minus_mono a b c le))

-- A higher monthly gross never lowers the month's income tax, in Korea, in Japan and in the United
-- States. The lower gross is not negative.
pub income_tax_mono :
    (a b : ℕ)
    → a ≤ b
    → (kr_income_tax (pos a) ≤ℤ kr_income_tax (pos b))
      × (jp_income_tax (pos a) ≤ℤ jp_income_tax (pos b))
      × (us_federal_tax (pos a) ≤ℤ us_federal_tax (pos b))
unfolding kr_income_tax jp_income_tax us_federal_tax
income_tax_mono a b h =
    let yearly = λ (n : ℕ). ◌*ℤ◌ (pos n) (pos 12) in
    let rise = times_mono (pos a) (pos b) 12 (omega arith) in
    let net = λ (n : ℕ). ◌*ℤ◌ (yearly n) (pos 100) -ℤ jp_employment_income_deduction (yearly n) in
    (
      rounded_mono kr_brackets 1200 (yearly a) (yearly b) (units 1_500_000) (omega arith)
          (ground arith) rise,
      rounded_mono jp_brackets 120_000 (net a) (net b) (yen 480_000) (omega arith) (ground arith)
          (twelve a b h),
      rounded_mono us_brackets 1200 (yearly a) (yearly b) (units 14_600) (omega arith)
          (ground arith) rise,
    )
