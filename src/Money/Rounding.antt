-- ===== src/Money/Rounding.antt =====
-- Lemmas on the rounding functions.
use croar_backend_new.Prelude.{ℕ, ◌+◌, ◌*◌, ◌/◌, ◌≤◌, ◌<◌, ◌%◌, ◌≡◌, ap, suc, arith}
use native.Mathlib.Nat.{
  div-lt_iff_lt-mul, le-div_iff_mul-le, div-add-mod, div-mul-le_self, div-le_of_le-mul,
  le_of_mul-le-mul_left, mul-le-mul_right,
}
use native.Mathlib.Decide.{dec_lt}
use croar_backend_new.Prelude.Int.{ℤ, pos, negsuc, ◌≤ℤ◌}
use croar_backend_new.Money.{half_up_ℕ, half_up, half_even, ◌*ℤ◌}

-- The quotient as the largest number of divisors below.
div_bounds : (n d : ℕ) → 0 < d → (d * (n / d) ≤ n) × (n < d * (n / d) + d)
div_bounds n d h = grind arith

pub half_up_ℕ_nearest :
    (n d : ℕ)
    → 0 < d
    → (2 * (d * half_up_ℕ n d) ≤ 2 * n + d) × (2 * n < 2 * (d * half_up_ℕ n d) + d)
unfolding half_up_ℕ
half_up_ℕ_nearest n d h = let b = div_bounds (2 * n + d) (2 * d) (omega arith) in omega arith

half_up_ℕ-le_bound : (n d c : ℕ) → 0 < d → n ≤ c * d → 2 * n + d < (c + 1) * (2 * d)
half_up_ℕ-le_bound n d c h k = omega arith

pub half_up_ℕ-le : (n d c : ℕ) → 0 < d → n ≤ c * d → half_up_ℕ n d ≤ c
unfolding half_up_ℕ
half_up_ℕ-le n d c h k =
    omega (arith, (div-lt_iff_lt-mul {k = 2 * d} (omega arith)).1 (half_up_ℕ-le_bound n d c h k))

pub le-half_up_ℕ : (n d c : ℕ) → 0 < d → c * d ≤ n → c ≤ half_up_ℕ n d
unfolding half_up_ℕ
le-half_up_ℕ n d c h k = (le-div_iff_mul-le {k = 2 * d} (omega arith)).1 (omega arith)

pub half_up_ℕ_mono : (m n d : ℕ) → 0 < d → m ≤ n → half_up_ℕ m d ≤ half_up_ℕ n d
unfolding half_up_ℕ
half_up_ℕ_mono m n d p h =
    (le-div_iff_mul-le {k = 2 * d} (omega arith)).1
      (omega (arith, div-mul-le_self (2 * m + d) (2 * d)))

-- A quotient that leaves a remainder is below what bounds it.
div-lt_of_mod : (n d c : ℕ) → n ≤ c * d → n / d ≤ c → 0 < n % d → n / d + 1 ≤ c
div-lt_of_mod n d c k q r = elim (dec_lt (n / d) c) [
  | yes h ↦ omega arith
  | no h ↦
      let e : n / d ≡ c = omega arith in
      absurd (omega (arith, ap (λ (t : ℕ). d * t) e, div-add-mod n d))
]

pub half_even-le : (n d c : ℕ) → 0 < d → n ≤ c * d → half_even n d ≤ c
unfolding half_even
half_even-le n d c h k =
    let q : n / d ≤ c = div-le_of_le-mul d (omega arith) in ground (arith, div-lt_of_mod n d c k q)

-- A whole number of units is left alone.
pub half_up_whole : (c : ℤ) → half_up (◌*ℤ◌ c (pos 100)) 100 ≡ c
unfolding half_up half_up_ℕ ◌*ℤ◌
half_up_whole (pos n) = ground arith
half_up_whole (negsuc n) = ground arith

cross_bound :
    (q n d m e : ℕ) → 0 < d → q * (2 * d) ≤ 2 * n + d → n * e ≤ m * d → q * (2 * e) ≤ 2 * m + e
cross_bound q n d m e p k h = le_of_mul-le-mul_left {k = d} (omega (arith, mul-le-mul_right e k)) p

-- Rounding keeps the order of two fractions that are compared across.
pub half_up_cross : (n d m e : ℕ) → 0 < d → 0 < e → n * e ≤ m * d → half_up_ℕ n d ≤ half_up_ℕ m e
unfolding half_up_ℕ
half_up_cross n d m e p q h =
    (le-div_iff_mul-le {k = 2 * e} (omega arith)).1
      (cross_bound ((2 * n + d) / (2 * d)) n d m e p (div-mul-le_self (2 * n + d) (2 * d)) h)

pub half_up_mono : (a b : ℤ) (d : ℕ) → 0 < d → a ≤ℤ b → half_up a d ≤ℤ half_up b d
unfolding half_up
half_up_mono (pos m) (pos n) d p h = omega (arith, half_up_ℕ_mono m n d p (omega arith))
half_up_mono (pos m) (negsuc n) d p h = absurd (omega arith)
half_up_mono (negsuc m) (pos n) d p h = ground arith
half_up_mono (negsuc m) (negsuc n) d p h =
    let le = half_up_ℕ_mono (suc n) (suc m) d p (omega arith) in ground arith

pub times_mono : (a b : ℤ) (k : ℕ) → a ≤ℤ b → ◌*ℤ◌ a (pos k) ≤ℤ ◌*ℤ◌ b (pos k)
unfolding ◌*ℤ◌
times_mono (pos m) (pos n) k h = omega (arith, mul-le-mul_right {m = m} {n = n} k (omega arith))
times_mono (pos m) (negsuc n) k h = absurd (omega arith)
times_mono (negsuc m) (pos n) k h = ground arith
times_mono (negsuc m) (negsuc n) k h =
    let le = mul-le-mul_right {m = suc n} {n = suc m} k (omega arith) in ground arith

pub le-half_even : (n d c : ℕ) → 0 < d → c * d ≤ n → c ≤ half_even n d
unfolding half_even
le-half_even n d c p h = let q : c ≤ n / d = (le-div_iff_mul-le p).1 h in ground arith
