-- ===== src/Words/Intl.antt =====
-- The international spelling of a number reads back as the number.
use croar_backend_new.Prelude.{
  ℕ, zero, suc, ◌+◌, ◌*◌, ◌/◌, ◌%◌, ◌<◌, ◌≡◌, refl, sym, ◌∙◌, ap, false, List, [], ◌∷◌, ◌++◌, map,
  inl, inr, Bool-cases, ◌==◌, arith,
}
use croar_backend_new.Text.{Text, codes}
use croar_backend_new.Words.{
  join, part_if, below_thousand, scales, scale_loop, int_words_intl, is_indian, int_words,
}
use croar_backend_new.Words.Reading.{Reading, read, read_parts, read-join, value}
use croar_backend_new.Words.RoundTrip.{
  so_far, pair, total, read-part_if, read-below_thousand, read-scaled, value-int_words_indian,
}

-- Each word closes the group at its scale, a thousand times the scale before.
abbrev Close : ℕ → List Text → Type 0
Close size [] = Unit
Close size (w ∷ ws) = ((t g : ℕ) → read w (t, g) ≡ so_far (t + g * size) 0) × Close (size * 1000) ws

abbrev room : List Text → ℕ
room [] = 1
room (w ∷ ws) = 1000 * room ws

chunk : (n size : ℕ) → 0 + (n / 1000) * (size * 1000) + (n % 1000) * size ≡ n * size
chunk n size =
    let e : n ≡ 1000 * (n / 1000) + n % 1000 = omega arith in
    let k = ap (λ (x : ℕ). x * size) e in omega (arith, k)

nothing : (n size : ℕ) → n ≡ 0 → 0 ≡ n * size
nothing zero size e = omega arith
nothing (suc n) size e = absurd (omega arith)

read-scale_loop :
    (ws : List Text) (size n : ℕ) (chunks : List Text)
    → Close size ws
    → n < room ws
    → read_parts (scale_loop (map (λ w. 32 ∷ w) ws) n chunks) (0, 0)
      ≡ read_parts chunks (n * size, 0)
unfolding scale_loop
read-scale_loop [] size n chunks close lt =
    ap (read_parts chunks) (total 0 (n * size) 0 (nothing n size (omega arith)))
read-scale_loop (w ∷ ws) size n chunks close lt = elim (Bool-cases (n == 0)) [
  | inl y ↦ rw y (ap (read_parts chunks) (total 0 (n * size) 0 (nothing n size (ground arith))))
  | inr k ↦ rw k (
      read-scale_loop ws (size * 1000) (n / 1000) _ close.1 (omega arith)
      ∙ read-scaled (n % 1000) ((n / 1000) * (size * 1000)) size w chunks (omega arith)
          (λ g. close.0 _ g)
      ∙ ap (read_parts chunks) (total _ (n * size) 0 (omega (arith, chunk n size))))
]

scale_loop-cons :
    (scale : Text) (rest : List Text) (n : ℕ) (chunks : List Text)
    → (n == 0) ≡ false
    → scale_loop (scale ∷ rest) n chunks
      ≡ scale_loop rest (n / 1000) (part_if (n % 1000) (below_thousand (n % 1000) ++ scale) chunks)
unfolding scale_loop
scale_loop-cons scale rest n chunks k = rw k refl

append_nil : (t : Text) → t ++ [] ≡ t
append_nil [] = refl
append_nil (c ∷ t) = ap (λ x. c ∷ x) (append_nil t)

abbrev higher_scales : List Text
higher_scales =
    codes "Thousand"
    ∷ codes "Million"
    ∷ codes "Billion"
    ∷ codes "Trillion"
    ∷ codes "Quadrillion"
    ∷ []

-- The chunk without a scale, which comes last.
abbrev units : ℕ → List Text
units n = part_if (n % 1000) (below_thousand (n % 1000) ++ []) []

read-units : (n t : ℕ) → read_parts (units n) (t, 0) ≡ so_far t (n % 1000)
read-units n t =
    read-part_if (n % 1000) (below_thousand (n % 1000) ++ []) [] (t, 0) (t, n % 1000)
      (λ e. pair t 0 (n % 1000) (sym e))
      (λ _.
        ap (λ x. read x (t, 0)) (append_nil (below_thousand (n % 1000)))
        ∙ read-below_thousand (n % 1000) t (omega arith))

read-intl :
    (n : ℕ)
    → n < 1_000_000_000_000_000_000
    → (n == 0) ≡ false
    → read (join (scale_loop scales n [])) (0, 0) ≡ so_far ((n / 1000) * 1000) (n % 1000)
read-intl n lt k =
    read-join (scale_loop scales n []) (0, 0)
    ∙ ap (λ l. read_parts l (0, 0)) (scale_loop-cons [] (map (λ w. 32 ∷ w) higher_scales) n [] k)
    ∙ read-scale_loop higher_scales 1000 (n / 1000) (units n)
        (λ t g. refl, (λ t g. refl, (λ t g. refl, (λ t g. refl, (λ t g. refl, tt))))) (omega arith)
    ∙ read-units n ((n / 1000) * 1000)

-- For every number below ten to the eighteenth, beyond which there is no scale, its spelling with
-- thousands, millions and so on reads back as the number.
pub value-int_words_intl : (n : ℕ) → n < 1_000_000_000_000_000_000 → value (int_words_intl n) ≡ n
unfolding int_words_intl
value-int_words_intl n lt = elim (Bool-cases (n == 0)) [
  | inl y ↦ let e : 0 ≡ n = ground arith in rw y e
  | inr k ↦ rw k (ap (λ (s : Reading). s.0 + s.1) (read-intl n lt k) ∙ omega arith)
]

-- For every currency code and every number below ten to the eighteenth, the number in words, grouped
-- as the currency groups it, reads back as the number.
pub value-int_words :
    (code : Text) (n : ℕ) → n < 1_000_000_000_000_000_000 → value (int_words code n) ≡ n
unfolding int_words
value-int_words code n lt = elim (Bool-cases (is_indian code)) [
  | inl y ↦ rw y (value-int_words_indian n)
  | inr k ↦ rw k (value-int_words_intl n lt)
]
