-- ===== src/Words/Reading.antt =====
-- Reading an amount in words back, and what it says of the spelling.
use croar_backend_new.Prelude.{
  ℕ, zero, suc, ◌+◌, ◌*◌, ◌<◌, ◌≡◌, refl, sym, ◌∙◌, ap, Bool, true, false, not, ◌&&◌, Option, none,
  some, List, [], ◌∷◌, ◌++◌, inl, inr, Bool-cases, ◌==◌, arith, if◌then◌else◌,
}
use croar_backend_new.Text.{Text, codes, text_eq, lookup_text, text_eq_sound}
use croar_backend_new.Words.{w_ones, word_at, join, two_digits}

-- The words of a text, which spaces separate.
abbrev cons_head : ℕ → List Text → List Text
cons_head c [] = (c ∷ []) ∷ []
cons_head c (w ∷ ws) = (c ∷ w) ∷ ws

abbrev pub split : Text → List Text
split [] = [] ∷ []
split (c ∷ t) = let rest = split t in if c == 32 then [] ∷ rest else cons_head c rest

-- The numbers that single words stand for.
abbrev dictionary : List (Text × ℕ)
dictionary =
    (codes "One", 1)
    ∷ (codes "Two", 2)
    ∷ (codes "Three", 3)
    ∷ (codes "Four", 4)
    ∷ (codes "Five", 5)
    ∷ (codes "Six", 6)
    ∷ (codes "Seven", 7)
    ∷ (codes "Eight", 8)
    ∷ (codes "Nine", 9)
    ∷ (codes "Ten", 10)
    ∷ (codes "Eleven", 11)
    ∷ (codes "Twelve", 12)
    ∷ (codes "Thirteen", 13)
    ∷ (codes "Fourteen", 14)
    ∷ (codes "Fifteen", 15)
    ∷ (codes "Sixteen", 16)
    ∷ (codes "Seventeen", 17)
    ∷ (codes "Eighteen", 18)
    ∷ (codes "Nineteen", 19)
    ∷ (codes "Twenty", 20)
    ∷ (codes "Thirty", 30)
    ∷ (codes "Forty", 40)
    ∷ (codes "Fifty", 50)
    ∷ (codes "Sixty", 60)
    ∷ (codes "Seventy", 70)
    ∷ (codes "Eighty", 80)
    ∷ (codes "Ninety", 90)
    ∷ []

abbrev or_zero : Option ℕ → ℕ
or_zero none = 0
or_zero (some n) = n

abbrev to_dash : Text → Text
to_dash [] = []
to_dash (c ∷ t) = let rest = to_dash t in if c == b'-' then [] else c ∷ rest

abbrev from_dash : Text → Text
from_dash [] = []
from_dash (c ∷ t) = let rest = from_dash t in if c == b'-' then t else rest

-- A word, hyphened or not, and 0 for any other.
abbrev pub word_value : Text → ℕ
word_value w =
    or_zero (lookup_text (to_dash w) dictionary) + or_zero (lookup_text (from_dash w) dictionary)

-- What was read so far: the total, and the group that no scale has closed yet.
abbrev pub Reading : Type 0
Reading = ℕ × ℕ

abbrev pub step : Text → Reading → Reading
step w s =
    if text_eq w (codes "Hundred")
    then (s.0, s.1 * 100)
    else if text_eq w (codes "Thousand")
    then (s.0 + s.1 * 1000, 0)
    else if text_eq w (codes "Lakh")
    then (s.0 + s.1 * 100_000, 0)
    else if text_eq w (codes "Crore")
    then ((s.0 + s.1) * 10_000_000, 0)
    else if text_eq w (codes "Million")
    then (s.0 + s.1 * 1_000_000, 0)
    else if text_eq w (codes "Billion")
    then (s.0 + s.1 * 1_000_000_000, 0)
    else if text_eq w (codes "Trillion")
    then (s.0 + s.1 * 1_000_000_000_000, 0)
    else if text_eq w (codes "Quadrillion")
    then (s.0 + s.1 * 1_000_000_000_000_000, 0)
    else (s.0, s.1 + word_value w)

abbrev pub steps : List Text → Reading → Reading
steps [] s = s
steps (w ∷ ws) s = steps ws (step w s)

abbrev pub read : Text → Reading → Reading
read t s = steps (split t) s

-- The number that a text reads as.
abbrev pub value : Text → ℕ
value t = (read t (0, 0)).0 + (read t (0, 0)).1

cons_head-append :
    (c : ℕ) (t : Text) (ws : List Text) → cons_head c (split t) ++ ws ≡ cons_head c (split t ++ ws)
cons_head-append c [] ws = refl
cons_head-append c (d ∷ t) ws = elim (Bool-cases (d == 32)) [
  | inl y ↦ rw y refl
  | inr n ↦ rw n (next (split t))
]
  where
    next : (l : List Text) → cons_head c (cons_head d l) ++ ws ≡ cons_head c (cons_head d l ++ ws)
    next [] = refl
    next (w ∷ l) = refl

split-append : (a b : Text) → split (a ++ (32 ∷ b)) ≡ split a ++ split b
split-append [] b = refl
split-append (c ∷ a) b = elim (Bool-cases (c == 32)) [
  | inl y ↦ rw (y, split-append a b) refl
  | inr n ↦ rw (n, split-append a b) (sym (cons_head-append c a (split b)))
]

steps-append : (xs ys : List Text) (s : Reading) → steps (xs ++ ys) s ≡ steps ys (steps xs s)
steps-append [] ys s = refl
steps-append (x ∷ xs) ys s = steps-append xs ys (step x s)

pub read-space : (a b : Text) (s : Reading) → read (a ++ (32 ∷ b)) s ≡ read b (read a s)
read-space a b s = ap (λ l. steps l s) (split-append a b) ∙ steps-append (split a) (split b) s

-- Part by part.
abbrev pub read_parts : List Text → Reading → Reading
read_parts [] s = s
read_parts (p ∷ ps) s = read_parts ps (read p s)

pub read-join : (ps : List Text) (s : Reading) → read (join ps) s ≡ read_parts ps s
read-join [] s = ap (λ (g : ℕ). (s.0, g)) (omega arith)
read-join (p ∷ []) s = refl
read-join (p ∷ q ∷ ps) s = read-space p (join (q ∷ ps)) s ∙ read-join (q ∷ ps) (read p s)

-- A word that is no scale and reads as a number.
abbrev is_plain : Text → Bool
is_plain w =
    (not (text_eq w (codes "Hundred")) && not (text_eq w (codes "Thousand")))
    && ((not (text_eq w (codes "Lakh")) && not (text_eq w (codes "Crore")))
        && ((not (text_eq w (codes "Million")) && not (text_eq w (codes "Billion")))
            && (not (text_eq w (codes "Trillion")) && not (text_eq w (codes "Quadrillion")))))

abbrev is_single : Text → List Text → Bool
is_single w [] = false
is_single w (v ∷ []) = text_eq v w
is_single w (v ∷ u ∷ vs) = false

abbrev pub spells : Text → ℕ → Bool
spells w n = is_plain w && (is_single w (split w) && word_value w == n)

abbrev pub all_below : ℕ → (ℕ → Bool) → Bool
all_below zero p = true
all_below (suc n) p = p n && all_below n p

pub below : (n : ℕ) (p : ℕ → Bool) (k : ℕ) → all_below n p ≡ true → k < n → p k ≡ true
below zero p k h lt = absurd (omega arith)
below (suc n) p k h lt = elim (Bool-cases (k == n)) [
  | inl y ↦ let e : k ≡ n = ground arith in rw e (ground (arith, h))
  | inr o ↦ below n p k (ground (arith, h)) (ground (arith, o))
]

pub two_digits_spelled : all_below 100 (λ n. spells (two_digits n) n) ≡ true
unfolding two_digits
two_digits_spelled = refl

pub ones_spelled : all_below 10 (λ n. spells (word_at n w_ones) n) ≡ true
ones_spelled = refl

is_single_sound : (w : Text) (l : List Text) → is_single w l ≡ true → l ≡ w ∷ []
is_single_sound w [] h = absurd cc
is_single_sound w (v ∷ []) h = ap (λ x. x ∷ []) (text_eq_sound v w h)
is_single_sound w (v ∷ u ∷ vs) h = absurd cc

pub read-spells : (w : Text) (n : ℕ) (s : Reading) → spells w n ≡ true → read w s ≡ (s.0, s.1 + n)
read-spells w n s h =
    let single : is_single w (split w) ≡ true = ground (arith, h) in
    let v : word_value w ≡ n = ground (arith, h) in
    let h1 : text_eq w (codes "Hundred") ≡ false = ground (arith, h) in
    let h2 : text_eq w (codes "Thousand") ≡ false = ground (arith, h) in
    let h3 : text_eq w (codes "Lakh") ≡ false = ground (arith, h) in
    let h4 : text_eq w (codes "Crore") ≡ false = ground (arith, h) in
    let h5 : text_eq w (codes "Million") ≡ false = ground (arith, h) in
    let h6 : text_eq w (codes "Billion") ≡ false = ground (arith, h) in
    let h7 : text_eq w (codes "Trillion") ≡ false = ground (arith, h) in
    let h8 : text_eq w (codes "Quadrillion") ≡ false = ground (arith, h) in
    ap (λ l. steps l s) (is_single_sound w (split w) single)
    ∙ rw (h1, h2, h3, h4, h5, h6, h7, h8, v) refl
