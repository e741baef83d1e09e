-- ===== src/Interview/Slots.antt =====
-- The rounds of the loop over the times of one date.
use croar_backend_new.Prelude.{
  ℕ, zero, suc, ◌+◌, ◌*◌, ◌≤◌, ◌<◌, ◌≡◌, refl, sym, Bool, true, false, not, none, some, List, [],
  ◌∷◌, inl, inr, All, Bool-cases, ltb, leb, ◌==◌, contains, arith, find_first, map,
}
use croar_backend_new.Interview.{clash, abs_diff, slot_loop}

-- What no clash means: the duration lies between the time and each existing one.
pub clash-false :
    (duration : ℕ) (existing : List ℕ) (c : ℕ)
    → clash duration existing c ≡ false
    → All (λ et. duration * 60 ≤ abs_diff et c) existing
unfolding clash
clash-false duration [] c h = tt
clash-false duration (et ∷ ets) c h = elim (Bool-cases (ltb (abs_diff et c) (duration * 60))) [
  | inl y ↦ absurd (ground (arith, y, h))
  | inr n ↦ (ground arith, clash-false duration ets c (ground (arith, n, h)))
]

pub clash-true :
    (duration : ℕ) (existing : List ℕ) (c : ℕ)
    → clash duration existing c ≡ true
    → ¬ All (λ et. duration * 60 ≤ abs_diff et c) existing
unfolding clash
clash-true duration [] c h all = absurd (ground arith)
clash-true duration (et ∷ ets) c h (here, all) =
    elim (Bool-cases (ltb (abs_diff et c) (duration * 60))) [
      | inl y ↦ ground arith
      | inr n ↦ clash-true duration ets c (ground (arith, n, h)) all
    ]

-- The time after k rounds.
abbrev pub nth : ℕ → ℕ → ℕ → ℕ
nth c duration k = c + k * (60 * duration)

module _ (duration : ℕ) (existing : List ℕ) (limit : ℕ) where
  pub slot_loop-some :
      (fuel c s : ℕ)
      → slot_loop fuel duration existing limit c ≡ some s
      → (k : ℕ) × (s ≡ nth c duration k)
        × (s + 60 * duration ≤ limit)
        × (clash duration existing s ≡ false)
  unfolding slot_loop
  slot_loop-some zero c s h = cc
  slot_loop-some (suc fuel) c s h = elim (Bool-cases (leb (c + 60 * duration) limit)) [
    | inr n ↦ cc
    | inl y ↦ elim (Bool-cases (clash duration existing c)) [
      | inr free ↦
          let e : some c ≡ some s = rw (← h) (rw y (rw free refl)) in
          let e' : c ≡ s = cc in (0, omega arith, ground arith, rw (← e') free)
      | inl taken ↦
          let e : slot_loop fuel duration existing limit (c + 60 * duration) ≡ some s =
            rw (← h) (rw y (rw taken refl)) in
          let r = slot_loop-some fuel (c + 60 * duration) s e in
          (suc r.0, omega (arith, r.1), r.2, r.3)
    ]
  ]

  pub slot_loop-none :
      (fuel c : ℕ)
      → limit < c + (fuel + 1) * (60 * duration)
      → slot_loop fuel duration existing limit c ≡ none
      → (k : ℕ) → nth c duration k + 60 * duration ≤ limit
      → clash duration existing (nth c duration k) ≡ true
  unfolding slot_loop
  slot_loop-none zero c enough h k fits = absurd (omega arith)
  slot_loop-none (suc fuel) c enough h zero fits =
      let e : nth c duration 0 ≡ c = omega arith in
      let y : leb (c + 60 * duration) limit ≡ true = ground arith in
      elim (Bool-cases (clash duration existing c)) [
        | inr free ↦ let never : some c ≡ none = rw (← h) (rw y (rw free refl)) in cc
        | inl taken ↦ rw e taken
      ]
  slot_loop-none (suc fuel) c enough h (suc k) fits =
      let e : nth c duration (suc k) ≡ nth (c + 60 * duration) duration k = omega arith in
      let y : leb (c + 60 * duration) limit ≡ true = ground arith in
      elim (Bool-cases (clash duration existing c)) [
        | inr free ↦ let never : some c ≡ none = rw (← h) (rw y (rw free refl)) in cc
        | inl taken ↦ rw e (
            slot_loop-none fuel (c + 60 * duration) (omega arith) (rw (← h) (rw y (rw taken refl)))
              k (omega arith))
      ]

  slot_loop-over :
      (fuel c : ℕ) → limit < c + 60 * duration → slot_loop fuel duration existing limit c ≡ none
  unfolding slot_loop
  slot_loop-over zero c over = refl
  slot_loop-over (suc fuel) c over =
      let n : leb (c + 60 * duration) limit ≡ false = ground arith in rw n refl

  -- The fuel does not matter where there is enough.
  pub slot_loop-same :
      (fuel other c : ℕ)
      → limit < c + (fuel + 1) * (60 * duration)
      → limit < c + (other + 1) * (60 * duration)
      → slot_loop fuel duration existing limit c ≡ slot_loop other duration existing limit c
  unfolding slot_loop
  slot_loop-same zero other c enough also =
      rw (slot_loop-over other c (omega arith)) (slot_loop-over 0 c (omega arith))
  slot_loop-same (suc fuel) zero c enough also = slot_loop-over (suc fuel) c (omega arith)
  slot_loop-same (suc fuel) (suc other) c enough also =
      rw (slot_loop-same fuel other (c + 60 * duration) (omega arith) (omega arith)) refl

-- The first free one of the listed times.
module _ (p : ℕ → Bool) (f : ℕ → ℕ) where
  pub find_first-some :
      (ts : List ℕ) (c : ℕ)
      → find_first (λ c. not (p c)) (map f ts) ≡ some c
      → (t : ℕ) × (contains t ts ≡ true) × (c ≡ f t) × (p c ≡ false)
  find_first-some [] c h = cc
  find_first-some (t ∷ ts) c h = elim (Bool-cases (p (f t))) [
    | inr free ↦
        let s : some (f t) ≡ some c = rw (← h) (rw free refl) in
        let e : f t ≡ c = cc in (t, ground arith, sym e, rw (← e) free)
    | inl taken ↦
        let r = find_first-some ts c (rw (← h) (rw taken refl)) in
        (r.0, ground (arith, r.1), r.2, r.3)
  ]

  pub find_first-none :
      (ts : List ℕ)
      → find_first (λ c. not (p c)) (map f ts) ≡ none
      → (t : ℕ) → contains t ts ≡ true
      → p (f t) ≡ true
  find_first-none [] h t m = absurd (ground arith)
  find_first-none (u ∷ us) h t m = elim (Bool-cases (p (f u))) [
    | inr free ↦ let never : some (f u) ≡ none = rw (← h) (rw free refl) in cc
    | inl taken ↦ elim (Bool-cases (t == u)) [
      | inl y ↦ let e : t ≡ u = ground arith in rw e taken
      | inr n ↦ find_first-none us (rw (← h) (rw taken refl)) t (rw (← m) (rw n refl))
    ]
  ]
