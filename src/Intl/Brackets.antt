-- ===== src/Intl/Brackets.antt =====
-- `_progressive_tax` against the definition by bands.
use croar_backend_new.Prelude.{
  ℕ, ◌+◌, ◌-◌, ◌*◌, ◌≤◌, ◌≡◌, refl, List, [], ◌∷◌, none, some, min, true, Bool-cases, inl, inr,
  arith, if◌then◌else◌, ltb, leb,
}
use croar_backend_new.Prelude.Int.{ℤ, pos, negsuc, ◌+ℤ◌, ◌-ℤ◌, ltb_ℤ, int_laws}
use croar_backend_new.Money.{◌*ℤ◌}
use croar_backend_new.Tax.{Band, slab_tax}
use croar_backend_new.Tax.Slabs.{
  marginal, IsAscending, marginal_below, sub_mul, slab_tax-marginal, zero_mul,
}
use croar_backend_new.Intl.{progressive_loop, progressive_tax}

-- The loop stops at the first band that starts at the income or above it.
done :
    (t : ℕ) (brackets : List Band) (tax : ℤ) → progressive_loop (pos t) brackets (pos t) tax ≡ tax
unfolding progressive_loop
done t [] tax = refl
done t ((none, rate) ∷ brackets) tax = let e : leb (t + 0) (t + 0) ≡ true = ground arith in rw e
done t ((some u, rate) ∷ brackets) tax = let e : leb (t + 0) (t + 0) ≡ true = ground arith in rw e

add_zero : (a : ℤ) (n : ℕ) → n ≡ 0 → a ≡ a +ℤ pos n
add_zero a n h = rw h (omega int_laws)

progressive_loop_lem :
    (t : ℕ) (brackets : List Band) (lower : ℕ) (tax : ℤ)
    → IsAscending lower brackets
    → progressive_loop (pos t) brackets (pos lower) tax ≡ tax +ℤ pos (marginal lower brackets t)
unfolding progressive_loop
progressive_loop_lem t [] lower tax a = omega int_laws
progressive_loop_lem t ((none, rate) ∷ brackets) lower tax a =
    elim (Bool-cases (leb (t + 0) (lower + 0))) [
      | inl e ↦ rw e (add_zero tax ((t - lower) * rate) (zero_mul (t - lower) rate (ground arith)))
      | inr e ↦
          let above : lower ≤ t = ground arith in
          rw (
            e,
            done t brackets (tax +ℤ ◌*ℤ◌ (pos t -ℤ pos lower) (pos rate)),
            sub_mul t lower rate above,
          )
    ]
progressive_loop_lem t ((some (negsuc u), rate) ∷ brackets) lower tax (e, b, a) = cc
progressive_loop_lem t ((some (pos u), rate) ∷ brackets) lower tax (e, b, a) =
    let all = (some (pos u), rate) ∷ brackets in
    elim (Bool-cases (leb (t + 0) (lower + 0))) [
      | inl c ↦ rw c (
          add_zero tax (marginal lower all t) (marginal_below lower all t (e, b, a) (ground arith)))
      | inr c ↦
          let above : lower ≤ t = ground arith in
          elim (Bool-cases (ltb (t + 0) (u + 0))) [
            | inl d ↦
                let m : min t u ≡ t = ground arith in
                let tax' = tax +ℤ ◌*ℤ◌ (pos t -ℤ pos lower) (pos rate) in
                let zero = marginal_below u brackets t a (ground arith) in
                rw
                  (
                    c,
                    d,
                    progressive_loop_lem t brackets u tax' a,
                    sub_mul t lower rate above,
                    m,
                    zero,
                  )
                  (omega int_laws)
            | inr d ↦
                let m : min t u ≡ u = ground arith in
                let tax' = tax +ℤ ◌*ℤ◌ (pos u -ℤ pos lower) (pos rate) in
                rw (c, d, progressive_loop_lem t brackets u tax' a, sub_mul u lower rate b, m)
                  (omega int_laws)
          ]
    ]

-- `max(tax, 0)` leaves a tax that is not negative.
positive : (n : ℕ) → (if ltb_ℤ (pos 0) (pos n) then pos n else pos 0) ≡ pos n
positive n = ground arith

-- On an income that is not negative and bands that rise, the tax on brackets abroad is the sum over
-- the bands of the rate times the part of the income in the band, and it agrees with the slab tax
-- of the Indian engine on the same bands.
pub progressive_tax-marginal :
    (t : ℕ) (brackets : List Band)
    → IsAscending 0 brackets
    → (progressive_tax (pos t) brackets ≡ pos (marginal 0 brackets t))
      × (progressive_tax (pos t) brackets ≡ slab_tax (pos t) brackets)
unfolding progressive_tax
progressive_tax-marginal t brackets a =
    let n = marginal 0 brackets t in
    let e : progressive_loop (pos t) brackets (pos 0) (pos 0) ≡ pos n =
      rw (progressive_loop_lem t brackets 0 (pos 0) a) (omega int_laws) in
    rw (slab_tax-marginal t brackets a, e, positive n) (refl, refl)
