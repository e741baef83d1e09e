-- ===== src/Text.antt =====
-- Python's `str` as its code points, with the operations that the payroll code applies to codes
-- and names: `strip`, `upper`, `lower` and equality. Only ASCII letters change case here, and only
-- ASCII white space is stripped.
pub mod Numbers
use Prim.Native.String.{String}
use Prim.Native.Char.{code}
use croar_backend_new.Prelude.{
  ℕ, ◌+◌, ◌-◌, ◌≡◌, refl, Bool, true, false, ◌&&◌, ◌||◌, List, [], ◌∷◌, map, Option, none, some,
  leb, ◌==◌, if◌then◌else◌, arith,
}
use mathlib.Core.List.{reverse}

abbrev pub Text : Type 0
Text = List ℕ

abbrev pub codes : String → Text
codes String.[] = []
codes (String.◌∷◌ c s) = code c ∷ codes s

-- Space, tab, newline, vertical tab, form feed, carriage return.
abbrev is_space : ℕ → Bool
is_space c = c == 32 || (leb 9 c && leb c 13)

abbrev strip_left : Text → Text
strip_left [] = []
strip_left (c ∷ t) = let rest = strip_left t in elim (is_space c) [ true ↦ rest | false ↦ c ∷ t ]

abbrev pub strip : Text → Text
strip t = reverse (strip_left (reverse (strip_left t)))

abbrev upper_code : ℕ → ℕ
upper_code c = if leb b'a' c && leb c b'z' then c - 32 else c

abbrev lower_code : ℕ → ℕ
lower_code c = if leb b'A' c && leb c b'Z' then c + 32 else c

abbrev pub upper : Text → Text
upper = map upper_code

abbrev pub lower : Text → Text
lower = map lower_code

abbrev pub text_eq : Text → Text → Bool
text_eq [] [] = true
text_eq [] (d ∷ u) = false
text_eq (c ∷ t) [] = false
text_eq (c ∷ t) (d ∷ u) = c == d && text_eq t u

-- `table.get(key)`, for a table with text keys.
abbrev pub lookup_text {ℓ} : {A : Type ℓ} → Text → List (Text × A) → Option A
lookup_text key [] = none
lookup_text key ((k, a) ∷ table) =
    let rest = lookup_text key table in elim (text_eq key k) [ true ↦ some a | false ↦ rest ]

pub text_eq_sound : (t u : Text) → text_eq t u ≡ true → t ≡ u
text_eq_sound [] [] h = refl
text_eq_sound [] (d ∷ u) h = cc
text_eq_sound (c ∷ t) [] h = cc
text_eq_sound (c ∷ t) (d ∷ u) h = ground (arith, text_eq_sound t u)

pub text_eq_refl : (t : Text) → text_eq t t ≡ true
text_eq_refl [] = refl
text_eq_refl (c ∷ t) = ground (arith, text_eq_refl t)
