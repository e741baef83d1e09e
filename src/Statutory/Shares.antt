-- ===== src/Statutory/Shares.antt =====
-- What `compute_pf` and `compute_esi` promise about the shares that they return.
use croar_backend_new.Prelude.{
  ℕ, ◌+◌, ◌*◌, ◌≤◌, ◌<◌, ◌≡◌, refl, ltb, ◌-◌, ◌/◌, ◌⊎◌, inl, inr, true, false, Bool-cases, leb,
  arith,
}
use native.Mathlib.Nat.{mul-le-mul_left, mul-le-mul, lt-div-mul-add, div-mul-le_self}
use croar_backend_new.Prelude.Int.{ℤ, pos, ◌+ℤ◌, ◌-ℤ◌, ◌≤ℤ◌, min_ℤ, int_laws}
use croar_backend_new.Money.{
  Money, Decimal, cents, decimal, multiply, ◌*ℤ◌, half_up, ceiling, half_up_ℕ,
}
use croar_backend_new.Money.Rounding.{half_up_whole, half_up_cross}
use croar_backend_new.Statutory.{
  PfRules, round_rupee, round_up, contributory, compute_pf, compute_esi,
}

hundred_sub : (a b : ℤ) → ◌*ℤ◌ a (pos 100) -ℤ ◌*ℤ◌ b (pos 100) ≡ ◌*ℤ◌ (a -ℤ b) (pos 100)
unfolding ◌*ℤ◌ ◌-ℤ◌
hundred_sub a b = ground arith

-- A difference of whole rupees is not changed by rounding.
round_rupee-sub :
    (a b : Decimal)
    → round_rupee (cents (round_rupee a -ℤ round_rupee b)) ≡ round_rupee a -ℤ round_rupee b
unfolding round_rupee
round_rupee-sub a b = rw (hundred_sub (half_up a.num a.den) (half_up b.num b.den), half_up_whole)

-- The pension part and the remainder make up the employer's share exactly, for every wage, rate
-- and ceiling: no rupee is lost by rounding the parts.
pub compute_pf_splits :
    (r : PfRules) (pf_wage : Money)
    → let pf = compute_pf r pf_wage in pf.employer_eps +ℤ pf.employer_epf ≡ pf.employer_total
unfolding compute_pf
compute_pf_splits r pf_wage =
    let wage = contributory r pf_wage in
    let total = multiply (cents wage) r.employer_rate in
    let eps = multiply (cents (min_ℤ pf_wage r.eps_wage_ceiling)) r.eps_rate in
    rw (round_rupee-sub total eps) (omega int_laws)

-- A share at a rate of at most one is no more than the whole, both rounded.
share_cross : (w n d : ℕ) → 0 < d → n ≤ d → half_up_ℕ (w * n) (100 * d) ≤ half_up_ℕ w 100
share_cross w n d p h =
    half_up_cross (w * n) (100 * d) w 100 (omega arith) (omega arith)
      (omega (arith, mul-le-mul_left w h))

contributory_nonneg :
    (r : PfRules) (w c : ℕ) → r.wage_ceiling ≡ pos c → (v : ℕ) × (contributory r (pos w) ≡ pos v)
unfolding contributory
contributory_nonneg r w c h = elim (Bool-cases r.cap_at_ceiling) [
  | inl capped ↦ elim (Bool-cases (leb w c)) [
    | inl below ↦ (w, ground arith)
    | inr beyond ↦ (c, ground arith)
  ]
  | inr free ↦ (w, ground arith)
]

share_within :
    (wage : Money) (rate : Decimal) (v n d : ℕ)
    → wage ≡ pos v
    → rate ≡ decimal n d
    → 0 < d
    → n ≤ d
    → let share = round_rupee (multiply (cents wage) rate) in
      (pos 0 ≤ℤ share) × (share ≤ℤ round_rupee (cents wage))
unfolding round_rupee half_up ◌*ℤ◌
share_within wage rate v n d e r p h = rw (e, r) (omega (arith, share_cross v n d p h))

-- At a wage, a ceiling and a rate that are not negative, and a rate of at most one, the employee's
-- share is not negative and is at most the wage that was considered.
pub compute_pf_within :
    (r : PfRules) (w c n d : ℕ)
    → r.wage_ceiling ≡ pos c
    → r.employee_rate ≡ decimal n d
    → 0 < d
    → n ≤ d
    → let pf = compute_pf r (pos w) in (pos 0 ≤ℤ pf.employee) × (pf.employee ≤ℤ pf.wage_considered)
unfolding compute_pf
compute_pf_within r w c n d hc hr p h =
    let (v, e) = contributory_nonneg r w c hc in
    share_within (contributory r (pos w)) r.employee_rate v n d e hr p h

remainder_nonneg :
    (wage base : Money) (rate eps_rate : Decimal) (v u n d m e : ℕ)
    → wage ≡ pos v
    → base ≡ pos u
    → rate ≡ decimal m e
    → eps_rate ≡ decimal n d
    → 0 < d
    → 0 < e
    → n * e ≤ m * d
    → u ≤ v
    → round_rupee (multiply (cents base) eps_rate) ≤ℤ round_rupee (multiply (cents wage) rate)
unfolding round_rupee half_up ◌*ℤ◌
remainder_nonneg wage base rate eps_rate v u n d m e hv hu hm hn p q h k =
    let le =
      half_up_cross (u * n) (100 * d) (v * m) (100 * e) (omega arith) (omega arith)
        (omega (arith, mul-le-mul k h)) in
    rw (hv, hu, hm, hn) (omega arith)

-- The remainder of the employer's share is not negative where the pension rate is at most the
-- employer's rate and the pension wage at most the contributory wage.
pub compute_pf_remainder :
    (r : PfRules) (v u n d m e : ℕ) (pf_wage : Money)
    → contributory r pf_wage ≡ pos v
    → min_ℤ pf_wage r.eps_wage_ceiling ≡ pos u
    → r.employer_rate ≡ decimal m e
    → r.eps_rate ≡ decimal n d
    → 0 < d
    → 0 < e
    → n * e ≤ m * d
    → u ≤ v
    → pos 0 ≤ℤ (compute_pf r pf_wage).employer_epf
unfolding compute_pf
compute_pf_remainder r v u n d m e w hv hu hm hn p q h k =
    let total = multiply (cents (contributory r w)) r.employer_rate in
    let eps = multiply (cents (min_ℤ w r.eps_wage_ceiling)) r.eps_rate in
    let le =
      remainder_nonneg (contributory r w) (min_ℤ w r.eps_wage_ceiling) r.employer_rate r.eps_rate v
        u n d m e hv hu hm hn p q h k in
    rw (round_rupee-sub total eps) (omega int_laws)

-- `share` is the least whole number of rupees that is not below the exact `gross * n / d`.
abbrev pub IsRupeeCeiling : ℕ → ℕ → ℕ → Money → Type 0
IsRupeeCeiling gross n d share =
    (k : ℕ) × (share ≡ pos (k * 100))
    × (gross * n ≤ k * (100 * d))
    × (k * (100 * d) < gross * n + 100 * d)

ceiling_bounds : (n d : ℕ) → 0 < d → let k = (n + (d - 1)) / d in (n ≤ k * d) × (k * d < n + d)
ceiling_bounds n d p =
    let b = lt-div-mul-add {a = n + (d - 1)} p in
    let c = div-mul-le_self (n + (d - 1)) d in (omega arith, omega arith)

round_up_lem :
    (gross n d : ℕ)
    → 0 < d
    → IsRupeeCeiling gross n d (round_up (multiply (cents (pos gross)) (decimal n d)))
unfolding round_up ceiling ◌*ℤ◌
round_up_lem gross n d p =
    let (low, high) = ceiling_bounds (gross * n) (100 * d) (omega arith) in
    ((gross * n + (100 * d - 1)) / (100 * d), refl, low, high)

-- Up to the wage limit the insurance is due, and each share is the exact share rounded up to whole
-- rupees; above the limit it is not due and both shares are zero.
pub compute_esi_covers :
    (limit gross n d m e : ℕ)
    → 0 < d
    → 0 < e
    → let esi = compute_esi (pos limit) (decimal n d) (decimal m e) (pos gross) in
      ((gross ≤ limit)
        × (esi.covered ≡ true)
        × IsRupeeCeiling gross n d esi.employee
        × IsRupeeCeiling gross m e esi.employer)
      ⊎ ((limit < gross) × (esi.covered ≡ false) × (esi.employee ≡ pos 0) × (esi.employer ≡ pos 0))
unfolding compute_esi
compute_esi_covers limit gross n d m e p q = elim (Bool-cases (ltb (limit + 0) (gross + 0))) [
  | inl h ↦ inr (ground arith, rw h, rw h, rw h)
  | inr h ↦
      inl (ground arith, rw h, rw h (round_up_lem gross n d p), rw h (round_up_lem gross m e q))
]
