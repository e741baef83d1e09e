-- ===== src/Text/Numbers.antt =====
-- Numbers and times in text, as `int` and a split at the colons read them.
use croar_backend_new.Prelude.{
  ℕ, zero, ◌+◌, ◌-◌, ◌*◌, Bool, false, ◌&&◌, ◌||◌, Option, none, some, [], ◌∷◌, ◌==◌, leb,
  if◌then◌else◌,
}
use croar_backend_new.Text.{Text, strip}

-- `int(text)` where it is not negative: digits, with single underscores between them.
abbrev is_digit : ℕ → Bool
is_digit c = leb b'0' c && leb c b'9'

abbrev read_digits : ℕ → Bool → Text → Option ℕ
read_digits acc after [] = if after then some acc else none
read_digits acc after (c ∷ t) =
    let d = is_digit c in
    let rest = read_digits (if d then 10 * acc + (c - b'0') else acc) d t in
    if d || (c == b'_' && after) then rest else none

-- A negative number is no hour and no minute; `-0` is.
abbrev unless_negative : Option ℕ → Option ℕ
unless_negative (some zero) = some 0
unless_negative _ = none

abbrev read_sign : Text → Option ℕ
read_sign [] = none
read_sign (c ∷ t) =
    if c == b'-'
    then unless_negative (read_digits 0 false t)
    else if c == b'+'
    then read_digits 0 false t
    else read_digits 0 false (c ∷ t)

abbrev pub read_int : Text → Option ℕ
read_int t = read_sign (strip t)

-- The text up to the next colon, and from the first colon on.
abbrev pub part : Text → Text
part [] = []
part (c ∷ t) = let rest = part t in if c == b':' then [] else c ∷ rest

abbrev pub after_colon : Text → Option Text
after_colon [] = none
after_colon (c ∷ t) = let rest = after_colon t in if c == b':' then some t else rest
