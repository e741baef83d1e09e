-- ===== src/Words/RoundTrip.antt =====
-- The spelling of a number reads back as the number.
use croar_backend_new.Prelude.{
  ℕ, zero, suc, ◌+◌, ◌*◌, ◌/◌, ◌%◌, ◌≤◌, ◌<◌, ◌≡◌, refl, sym, ◌∙◌, ap, List, [], ◌∷◌, ◌++◌, inl,
  inr, Bool-cases, ◌==◌, arith,
}
use croar_backend_new.Text.{Text, codes}
use croar_backend_new.Words.{
  w_ones, word_at, join, two_digits, part_if, below_thousand, scaled, words_loop, int_words_indian,
}
use croar_backend_new.Words.Reading.{
  Reading, read, read_parts, read-join, read-space, read-spells, spells, below, two_digits_spelled,
  ones_spelled, value,
}

-- A part that is left out adds nothing, and one that is there adds what it reads as.
pub read-part_if :
    (n : ℕ) (p : Text) (ps : List Text) (s s' : Reading)
    → (n ≡ 0 → s ≡ s')
    → (0 < n → read p s ≡ s')
    → read_parts (part_if n p ps) s ≡ read_parts ps s'
read-part_if zero p ps s s' e k = ap (read_parts ps) (e refl)
read-part_if (suc n) p ps s s' e k = ap (read_parts ps) (k (omega arith))

read-two_digits : (n : ℕ) (s : Reading) → n < 100 → read (two_digits n) s ≡ (s.0, s.1 + n)
read-two_digits n s lt =
    read-spells (two_digits n) n s
      (below 100 (λ k. spells (two_digits k) k) n two_digits_spelled lt)

read-ones : (n : ℕ) (s : Reading) → n < 10 → read (word_at n w_ones) s ≡ (s.0, s.1 + n)
read-ones n s lt =
    read-spells (word_at n w_ones) n s
      (below 10 (λ k. spells (word_at k w_ones) k) n ones_spelled lt)

abbrev pub so_far : ℕ → ℕ → Reading
so_far t g = (t, g)

pub pair : (t g h : ℕ) → g ≡ h → so_far t g ≡ so_far t h
pair t g h e = ap (λ (x : ℕ). (t, x)) e

pub total : (t u g : ℕ) → t ≡ u → so_far t g ≡ so_far u g
total t u g e = ap (λ (x : ℕ). (x, g)) e

pub read-below_thousand : (n t : ℕ) → n < 1000 → read (below_thousand n) (t, 0) ≡ (t, n)
unfolding below_thousand
read-below_thousand n t lt =
    let a = n / 100 in
    let b = n % 100 in
    let hundreds : read (word_at a w_ones ++ codes " Hundred") (t, 0) ≡ (t, (0 + a) * 100) =
      read-space (word_at a w_ones) (codes "Hundred") (t, 0)
      ∙ ap (read (codes "Hundred")) (read-ones a (t, 0) (omega arith)) in
    read-join (part_if a (word_at a w_ones ++ codes " Hundred") (part_if b (two_digits b) []))
      (t, 0)
    ∙ read-part_if a _ (part_if b (two_digits b) []) (t, 0) (t, a * 100)
        (λ e. pair t 0 (a * 100) (omega (arith, e)))
        (λ _. hundreds ∙ pair t ((0 + a) * 100) (a * 100) (omega arith))
    ∙ read-part_if b _ [] (t, a * 100) (t, n) (λ e. pair t (a * 100) n (omega (arith, e)))
        (λ _. read-two_digits b (t, a * 100) (omega arith) ∙ pair t (a * 100 + b) n (omega arith))

-- A number below a thousand and its scale, after a total.
pub read-scaled :
    (n t scale : ℕ) (word : Text) (ps : List Text)
    → n < 1000
    → ((g : ℕ) → read word (t, g) ≡ so_far (t + g * scale) 0)
    → read_parts (part_if n (below_thousand n ++ (32 ∷ word)) ps) (t, 0)
      ≡ read_parts ps (t + n * scale, 0)
read-scaled n t scale word ps lt closes =
    read-part_if n (below_thousand n ++ (32 ∷ word)) ps (t, 0) (t + n * scale, 0)
      (λ e. total t (t + n * scale) 0 (empty n e))
      (λ _.
        read-space (below_thousand n) word (t, 0)
        ∙ ap (read word) (read-below_thousand n t lt)
        ∙ closes n)
  where
    empty : (k : ℕ) → k ≡ 0 → t ≡ t + k * scale
    empty zero e = omega arith
    empty (suc k) e = absurd (omega arith)

-- The rest below one crore, after the crores.
read-rest :
    (rest t : ℕ)
    → rest < 10_000_000
    → read_parts
        (part_if (rest / 100_000) (below_thousand (rest / 100_000) ++ codes " Lakh") (
          part_if
            (rest % 100_000 / 1000)
            (below_thousand (rest % 100_000 / 1000) ++ codes " Thousand")
            (part_if (rest % 100_000 % 1000) (below_thousand (rest % 100_000 % 1000)) [])))
        (t, 0)
      ≡ so_far
          (t + (rest / 100_000) * 100_000 + (rest % 100_000 / 1000) * 1000)
          (rest % 100_000 % 1000)
read-rest rest t lt =
    let l = rest / 100_000 in
    let k = rest % 100_000 / 1000 in
    let r = rest % 100_000 % 1000 in
    read-scaled l t 100_000 (codes "Lakh") _ (omega arith) (λ g. refl)
    ∙ read-scaled k (t + l * 100_000) 1000 (codes "Thousand") _ (omega arith) (λ g. refl)
    ∙ read-part_if r (below_thousand r) [] (t + l * 100_000 + k * 1000, 0)
        (t + l * 100_000 + k * 1000, r) (λ e. pair (t + l * 100_000 + k * 1000) 0 r (sym e))
        (λ _. read-below_thousand r (t + l * 100_000 + k * 1000) (omega arith))

read-crores :
    (crores : Text) (crore : ℕ) (ps : List Text)
    → (0 < crore → value crores ≡ crore)
    → read_parts (part_if crore (crores ++ codes " Crore") ps) (0, 0)
      ≡ read_parts ps (crore * 10_000_000, 0)
read-crores crores crore ps spelled =
    read-part_if crore (crores ++ codes " Crore") ps (0, 0) (crore * 10_000_000, 0)
      (λ e. total 0 (crore * 10_000_000) 0 (omega (arith, e)))
      (λ pos.
        read-space crores (codes "Crore") (0, 0)
        ∙ total (value crores * 10_000_000) (crore * 10_000_000) 0
            (ap (λ (x : ℕ). x * 10_000_000) (spelled pos)))

value_of : Reading → ℕ
value_of s = s.0 + s.1

words_loop_lem : (fuel n : ℕ) → n ≤ fuel → value (words_loop fuel n) ≡ n
unfolding words_loop
words_loop_lem zero n le = omega arith
words_loop_lem (suc fuel) n le = elim (Bool-cases (n == 0)) [
  | inl y ↦ let e : 0 ≡ n = ground arith in rw y e
  | inr k ↦
      let c = n / 10_000_000 in
      let rest = n % 10_000_000 in
      let ih : value (words_loop fuel c) ≡ c = words_loop_lem fuel c (ground (arith, k)) in
      let whole : read (join (scaled (words_loop fuel c) c rest)) (0, 0)
          ≡ so_far (c * 10_000_000 + (rest / 100_000) * 100_000 + (rest % 100_000 / 1000) * 1000)
              (rest % 100_000 % 1000) =
        read-join (scaled (words_loop fuel c) c rest) (0, 0)
        ∙ read-crores (words_loop fuel c) c _ (λ _. ih)
        ∙ read-rest rest (c * 10_000_000) (omega arith) in
      rw k (ap (λ (s : Reading). s.0 + s.1) whole ∙ omega arith)
]

-- For every number, however large, its spelling with lakhs and crores reads back as the number.
pub value-int_words_indian : (n : ℕ) → value (int_words_indian n) ≡ n
unfolding int_words_indian
value-int_words_indian n = words_loop_lem n n (omega arith)
