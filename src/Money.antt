-- ===== src/Money.antt =====
-- Decimal arithmetic as the payroll engine uses it. An amount of money at two places is a whole
-- number of cents (paise), `Money`; any other Decimal is an exact fraction.
pub mod Rounding
use croar_backend_new.Prelude.{
  ℕ, zero, suc, ◌+◌, ◌-◌, ◌*◌, ◌/◌, ◌%◌, ◌^◌, Bool, true, false, ◌&&◌, ltb, ◌==◌, if◌then◌else◌,
}
use croar_backend_new.Prelude.Int.{ℤ, pos, negsuc, pos_part, neg_part, sub_ℕ}

abbrev pub Money : Type 0
Money = ℤ

-- The value `num / den`. A literal with k decimal places has `den` 10 ^ k.
pub record Decimal : Type 0 where
  pub num : ℤ
  pub den : ℕ

abbrev pub decimal : ℕ → ℕ → Decimal
decimal n d = record { num = pos n; den = d }

abbrev pub cents : Money → Decimal
cents m = record { num = m; den = 100 }

-- A product of integers: the signs multiply, the sizes multiply.
unfoldable pub ◌*ℤ◌ : ℤ → ℤ → ℤ
◌*ℤ◌ (pos a) (pos b) = pos (a * b)
◌*ℤ◌ (pos a) (negsuc b) = sub_ℕ 0 (a * suc b)
◌*ℤ◌ (negsuc a) (pos b) = sub_ℕ 0 (suc a * b)
◌*ℤ◌ (negsuc a) (negsuc b) = pos (suc a * suc b)

abbrev pub multiply : Decimal → Decimal → Decimal
multiply a b = record { num = ◌*ℤ◌ a.num b.num; den = a.den * b.den }

-- Division by a positive whole number.
abbrev pub divide_by : Decimal → ℕ → Decimal
divide_by a n = record { num = a.num; den = a.den * n }

-- The whole number nearest to n / d, a tie going up.
unfoldable pub half_up_ℕ : ℕ → ℕ → ℕ
half_up_ℕ n d = (2 * n + d) / (2 * d)

-- ROUND_HALF_UP: the size is rounded and the sign kept.
unfoldable pub half_up : ℤ → ℕ → ℤ
half_up (pos n) d = pos (half_up_ℕ n d)
half_up (negsuc n) d = sub_ℕ 0 (half_up_ℕ (suc n) d)

-- ROUND_CEILING.
unfoldable pub ceiling : ℤ → ℕ → ℤ
ceiling (pos n) d = pos ((n + (d - 1)) / d)
ceiling (negsuc n) d = sub_ℕ 0 (suc n / d)

-- `amount.quantize(Decimal("0.01"), rounding=ROUND_HALF_UP)`
unfoldable pub quantize : Decimal → Money
quantize a = half_up (◌*ℤ◌ a.num (pos 100)) a.den

-- ROUND_HALF_EVEN, the rounding of the default context, on n / d.
unfoldable pub half_even : ℕ → ℕ → ℕ
half_even n d =
    let q = n / d in
    let r = n % d in
    if ltb (2 * r) d then q else if ltb d (2 * r) then q + 1 else if q % 2 == 0 then q else q + 1

-- The number of decimal places at which n / d has 28 significant digits; at least `k`, and at
-- most `k + fuel`.
unfoldable pub places : ℕ → ℕ → ℕ → ℕ → ℕ
places zero k n d = k
places (suc fuel) k n d =
    let more = places fuel (suc k) n d in if ltb (n * 10 ^ k) (d * 10 ^ 27) then more else k

-- n / d at the 28 significant digits of the default context. No value that the program stores has
-- 26 digits before the point, so at least two places are kept.
unfoldable pub context : ℕ → ℕ → Decimal
context n d = let k = places 60 2 n d in decimal (half_even (n * 10 ^ k) d) (10 ^ k)
