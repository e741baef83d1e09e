-- ===== src/Tax/Slabs.antt =====
-- `_slab_tax` against a definition by bands (app/services/payroll/tax_engine.py).
use native.Mathlib.Nat.{mul-le-mul_right}
use croar_backend_new.Prelude.{
  ℕ, ◌+◌, ◌-◌, ◌*◌, ◌≤◌, ◌≡◌, refl, min, List, [], ◌∷◌, none, some, Bool-cases, ltb, if◌then◌else◌,
  inl, inr, arith, ap,
}
use croar_backend_new.Prelude.Int.{pos, negsuc, pos_part, ◌+ℤ◌, ◌-ℤ◌, ◌≤ℤ◌, ltb_ℤ, int_laws}
use croar_backend_new.Money.{◌*ℤ◌}
use croar_backend_new.Tax.{Band, Tax, slab_loop, slab_tax}

-- The tax of the bands from `lower` up on an income of `t` paise.
abbrev pub marginal : ℕ → List Band → ℕ → ℕ
marginal lower [] t = 0
marginal lower ((none, rate) ∷ slabs) t = (t - lower) * rate
marginal lower ((some upper, rate) ∷ slabs) t =
    (min t (pos_part upper) - lower) * rate + marginal (pos_part upper) slabs t

-- The upper bounds are not negative and rise.
abbrev pub IsAscending : ℕ → List Band → Type 0
IsAscending lower [] = Unit
IsAscending lower ((none, rate) ∷ slabs) = Unit
IsAscending lower ((some upper, rate) ∷ slabs) =
    (upper ≡ pos (pos_part upper)) × (lower ≤ pos_part upper) × IsAscending (pos_part upper) slabs

pub zero_mul : (n r : ℕ) → n ≡ 0 → n * r ≡ 0
zero_mul n r h = rw h (omega arith)

-- Bands above the income tax nothing.
pub marginal_below :
    (lower : ℕ) (slabs : List Band) (t : ℕ)
    → IsAscending lower slabs
    → t ≤ lower
    → marginal lower slabs t ≡ 0
marginal_below lower [] t a h = refl
marginal_below lower ((none, rate) ∷ slabs) t a h = zero_mul (t - lower) rate (omega arith)
marginal_below lower ((some upper, rate) ∷ slabs) t (e, b, a) h = omega (
  arith,
  zero_mul (min t (pos_part upper) - lower) rate (omega arith),
  marginal_below (pos_part upper) slabs t a (omega arith),
)

pub sub_mul : (a b r : ℕ) → b ≤ a → ◌*ℤ◌ (pos a -ℤ pos b) (pos r) ≡ pos ((a - b) * r)
unfolding ◌-ℤ◌ ◌*ℤ◌
sub_mul a b r h = ground arith

-- The part of the band from `lower` on, taken where the income reaches it.
part_lem :
    (t lower rate : ℕ) (tax : Tax)
    → (if ltb_ℤ (pos lower) (pos t) then tax +ℤ ◌*ℤ◌ (pos t -ℤ pos lower) (pos rate) else tax)
      ≡ tax +ℤ pos ((t - lower) * rate)
part_lem t lower rate tax = elim (Bool-cases (ltb (lower + 0) (t + 0))) [
  | inl e ↦ rw (e, sub_mul t lower rate (ground arith))
  | inr e ↦ rw (e, zero_mul (t - lower) rate (ground arith)) (omega int_laws)
]

slab_loop_lem :
    (t : ℕ) (slabs : List Band) (lower : ℕ) (tax : Tax)
    → IsAscending lower slabs
    → slab_loop (pos t) slabs (pos lower) tax ≡ tax +ℤ pos (marginal lower slabs t)
unfolding slab_loop
slab_loop_lem t [] lower tax a = omega int_laws
slab_loop_lem t ((none, rate) ∷ slabs) lower tax a = part_lem t lower rate tax
slab_loop_lem t ((some (negsuc u), rate) ∷ slabs) lower tax (e, b, a) = cc
slab_loop_lem t ((some (pos u), rate) ∷ slabs) lower tax (e, b, a) =
    let tax' = tax +ℤ ◌*ℤ◌ (pos u -ℤ pos lower) (pos rate) in
    let ih = slab_loop_lem t slabs u tax' a in
    elim (Bool-cases (ltb (u + 0) (t + 0))) [
      | inl over ↦
          let m : min t u ≡ u = ground arith in
          rw (over, ih, sub_mul u lower rate b, m) (omega int_laws)
      | inr under ↦
          let m : min t u ≡ t = ground arith in
          rw (under, part_lem t lower rate tax, m, marginal_below u slabs t a (ground arith))
            (omega int_laws)
    ]

-- On an income that is not negative and bands that rise, the tax is the sum over the bands of the
-- rate times the part of the income that lies in the band.
pub slab_tax-marginal :
    (t : ℕ) (slabs : List Band)
    → IsAscending 0 slabs
    → slab_tax (pos t) slabs ≡ pos (marginal 0 slabs t)
unfolding slab_tax
slab_tax-marginal t slabs a = rw (slab_loop_lem t slabs 0 (pos 0) a) (omega int_laws)

-- All rates are at most `top`.
abbrev pub IsCapped : ℕ → List Band → Type 0
IsCapped top [] = Unit
IsCapped top ((upper, rate) ∷ slabs) = (rate ≤ top) × IsCapped top slabs

pub marginal_mono :
    (lower : ℕ) (slabs : List Band) (t k : ℕ)
    → marginal lower slabs t ≤ marginal lower slabs (t + k)
marginal_mono lower [] t k = omega arith
marginal_mono lower ((none, rate) ∷ slabs) t k = mul-le-mul_right rate (omega arith)
marginal_mono lower ((some upper, rate) ∷ slabs) t k =
    let u = pos_part upper in
    let here : (min t u - lower) * rate ≤ (min (t + k) u - lower) * rate =
      mul-le-mul_right rate (omega arith) in
    omega (arith, marginal_mono u slabs t k)

-- The part of an income between two bounds grows by what lies between them.
part_grows : (a b r top d : ℕ) → a ≤ b + d → r ≤ top → a * r ≤ b * r + top * d
part_grows a b r top d h k =
    let x = mul-le-mul_right r h in let y = mul-le-mul_right d k in omega arith

add_growth :
    (p p' r r' top d e f : ℕ)
    → p' ≤ p + top * d
    → r' ≤ r + top * e
    → d + e ≡ f
    → p' + r' ≤ p + r + top * f
add_growth p p' r r' top d e f h k l = rw (← l) (omega arith)

-- The growth of the part of the income above `lower`.
abbrev growth : ℕ → ℕ → ℕ → ℕ
growth lower t k = t + k - lower - (t - lower)

marginal_slope :
    (lower : ℕ) (slabs : List Band) (t k top : ℕ)
    → IsAscending lower slabs
    → IsCapped top slabs
    → marginal lower slabs (t + k) ≤ marginal lower slabs t + top * growth lower t k
marginal_slope lower [] t k top a c = omega arith
marginal_slope lower ((none, rate) ∷ slabs) t k top a (c, cs) =
    part_grows (t + k - lower) (t - lower) rate top (growth lower t k) (omega arith) c
marginal_slope lower ((some upper, rate) ∷ slabs) t k top (e, b, a) (c, cs) =
    let u = pos_part upper in
    let d : ℕ = min (t + k) u - lower - (min t u - lower) in
    add_growth ((min t u - lower) * rate) ((min (t + k) u - lower) * rate) (marginal u slabs t)
      (marginal u slabs (t + k)) top d (growth u t k) (growth lower t k)
      (part_grows (min (t + k) u - lower) (min t u - lower) rate top d (omega arith) c)
      (marginal_slope u slabs t k top a cs) (omega arith)

-- On k paise more of income the tax does not fall, and it rises by at most the highest rate on
-- those k paise.
pub slab_tax_slope :
    (t k top : ℕ) (slabs : List Band)
    → IsAscending 0 slabs
    → IsCapped top slabs
    → (slab_tax (pos t) slabs ≤ℤ slab_tax (pos (t + k)) slabs)
      × (slab_tax (pos (t + k)) slabs ≤ℤ slab_tax (pos t) slabs +ℤ pos (top * k))
slab_tax_slope t k top slabs a c =
    let e : growth 0 t k ≡ k = omega arith in
    let slope = marginal_slope 0 slabs t k top a c in
    rw (slab_tax-marginal t slabs a, slab_tax-marginal (t + k) slabs a)
      (omega (arith, marginal_mono 0 slabs t k), omega (int_laws, slope, ap (λ (n : ℕ). top * n) e))
