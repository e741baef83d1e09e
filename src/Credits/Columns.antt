-- ===== src/Credits/Columns.antt =====
-- What the rounding of the columns does to sums of amounts.
use croar_backend_new.Prelude.{ℕ, ◌*◌, ◌≡◌, refl, arith}
use croar_backend_new.Prelude.Int.{ℤ, pos, negsuc, pos_part, neg_part, ◌+ℤ◌, ◌-ℤ◌, ◌≤ℤ◌, int_laws}
use croar_backend_new.Money.{◌*ℤ◌}
use croar_backend_new.Credits.{exact, negative}

-- At most n apart.
abbrev pub IsNear : ℕ → ℤ → ℤ → Type 0
IsNear n x y = (x ≤ℤ y +ℤ pos n) × (y ≤ℤ x +ℤ pos n)

-- A column holds one of the nearest hundredths.
abbrev pub IsNearest : (ℤ → ℤ) → Type 0
IsNearest column = (x : ℤ) → IsNear 50 (exact (column x)) x

pub exact_parts :
    (n : ℤ) → (pos_part (exact n) ≡ 100 * pos_part n) × (neg_part (exact n) ≡ 100 * neg_part n)
unfolding ◌*ℤ◌
exact_parts (pos n) = (omega arith, refl)
exact_parts (negsuc n) = ground arith

module _ (column : ℤ → ℤ) (nearest : IsNearest column) where
  -- The balance moves by what the amount's column holds, but for a hundredth.
  pub balance-IsNear : (b a : ℤ) → IsNear 1 (column (exact b +ℤ a)) (b +ℤ column a)
  balance-IsNear b a =
      let nb = nearest (exact b +ℤ a) in
      let na = nearest a in
      let pb = exact_parts b in
      let pc = exact_parts (column (exact b +ℤ a)) in
      let pa = exact_parts (column a) in (omega int_laws, omega int_laws)

  -- What is taken from the balance is what is added to the use, but for a hundredth.
  pub used-IsNear :
      (b u a : ℤ) → IsNear 1 (column (exact b +ℤ a) +ℤ column (exact u +ℤ negative a)) (b +ℤ u)
  used-IsNear b u a =
      let nb = nearest (exact b +ℤ a) in
      let nu = nearest (exact u +ℤ negative a) in
      let pb = exact_parts b in
      let pu = exact_parts u in
      let pc = exact_parts (column (exact b +ℤ a)) in
      let pd = exact_parts (column (exact u +ℤ negative a)) in (omega int_laws, omega int_laws)

  -- Whole hundredths are kept.
  pub column_sum : (b m : ℤ) → column (exact b +ℤ exact m) ≡ b +ℤ m
  column_sum b m =
      let nb = nearest (exact b +ℤ exact m) in
      let pb = exact_parts b in
      let pm = exact_parts m in let pc = exact_parts (column (exact b +ℤ exact m)) in omega int_laws

  pub column_whole : (m : ℤ) → column (exact m) ≡ m
  column_whole m =
      let nm = nearest (exact m) in
      let pm = exact_parts m in let pc = exact_parts (column (exact m)) in omega int_laws

  pub column_less : (u m : ℤ) → column (exact u +ℤ negative (exact m)) ≡ u -ℤ m
  column_less u m =
      let nu = nearest (exact u +ℤ negative (exact m)) in
      let pu = exact_parts u in
      let pm = exact_parts m in
      let pc = exact_parts (column (exact u +ℤ negative (exact m))) in omega int_laws
