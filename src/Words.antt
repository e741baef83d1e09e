-- ===== src/Words.antt =====
-- app/services/payroll/docx_service.py: an amount spelled out in words, with the Indian or the
-- international grouping. An amount has two decimal places and is given in hundredths, so that the
-- rounding of its minor part never carries.
pub mod Reading
pub mod RoundTrip
pub mod Intl
mod Examples
use Prim.Native.String.{String}
use croar_backend_new.Prelude.{
  ℕ, zero, suc, ◌+◌, ◌-◌, ◌*◌, ◌/◌, ◌%◌, Bool, true, false, ◌||◌, Option, none, some, List, [], ◌∷◌,
  ◌++◌, ltb, leb, ◌==◌, if◌then◌else◌,
}
use croar_backend_new.Prelude.Int.{ℤ, pos, negsuc}
use croar_backend_new.Text.{Text, codes, strip, upper, text_eq, lookup_text}

abbrev pub w_ones : List Text
w_ones =
    codes "Zero"
    ∷ codes "One"
    ∷ codes "Two"
    ∷ codes "Three"
    ∷ codes "Four"
    ∷ codes "Five"
    ∷ codes "Six"
    ∷ codes "Seven"
    ∷ codes "Eight"
    ∷ codes "Nine"
    ∷ codes "Ten"
    ∷ codes "Eleven"
    ∷ codes "Twelve"
    ∷ codes "Thirteen"
    ∷ codes "Fourteen"
    ∷ codes "Fifteen"
    ∷ codes "Sixteen"
    ∷ codes "Seventeen"
    ∷ codes "Eighteen"
    ∷ codes "Nineteen"
    ∷ []

abbrev pub w_tens : List Text
w_tens =
    []
    ∷ []
    ∷ codes "Twenty"
    ∷ codes "Thirty"
    ∷ codes "Forty"
    ∷ codes "Fifty"
    ∷ codes "Sixty"
    ∷ codes "Seventy"
    ∷ codes "Eighty"
    ∷ codes "Ninety"
    ∷ []

abbrev pub word_at : ℕ → List Text → Text
word_at i [] = []
word_at i (w ∷ ws) = let rest = word_at (i - 1) ws in if i == 0 then w else rest

-- `" ".join(parts)`
abbrev pub join : List Text → Text
join [] = []
join (p ∷ []) = p
join (p ∷ q ∷ ps) = p ++ (32 ∷ join (q ∷ ps))

-- The part of `_below_thousand` for 1 to 99.
unfoldable pub two_digits : ℕ → Text
two_digits n =
    if leb 20 n
    then if ltb 0 (n % 10)
      then word_at (n / 10) w_tens ++ (codes "-" ++ word_at (n % 10) w_ones)
      else word_at (n / 10) w_tens
    else word_at n w_ones

-- A part is there where its number is not zero.
abbrev pub part_if : ℕ → Text → List Text → List Text
part_if zero p ps = ps
part_if (suc n) p ps = p ∷ ps

unfoldable pub below_thousand : ℕ → Text
below_thousand n = join (
    part_if (n / 100) (word_at (n / 100) w_ones ++ codes " Hundred")
      (part_if (n % 100) (two_digits (n % 100)) []))

-- The parts of `crore` crores, spelled `crores`, and a rest below one crore.
abbrev pub scaled : Text → ℕ → ℕ → List Text
scaled crores crore rest = part_if crore (crores ++ codes " Crore") (
    part_if (rest / 100_000) (below_thousand (rest / 100_000) ++ codes " Lakh") (
      part_if (rest % 100_000 / 1000) (below_thousand (rest % 100_000 / 1000) ++ codes " Thousand")
        (part_if (rest % 100_000 % 1000) (below_thousand (rest % 100_000 % 1000)) [])))

-- On fuel: a crore is ten million, so the number itself is fuel enough.
unfoldable pub words_loop : ℕ → ℕ → Text
words_loop zero n = codes "Zero"
words_loop (suc fuel) n =
    let crores = words_loop fuel (n / 10_000_000) in
    if n == 0 then codes "Zero" else join (scaled crores (n / 10_000_000) (n % 10_000_000))

-- The scales of the international grouping.
abbrev pub scales : List Text
scales =
    []
    ∷ codes " Thousand"
    ∷ codes " Million"
    ∷ codes " Billion"
    ∷ codes " Trillion"
    ∷ codes " Quadrillion"
    ∷ []

-- The loop over the scales. The chunks are put in front, so that they come out reversed.
unfoldable pub scale_loop : List Text → ℕ → List Text → List Text
scale_loop [] n chunks = chunks
scale_loop (scale ∷ rest) n chunks =
    let higher =
      scale_loop rest (n / 1000) (part_if (n % 1000) (below_thousand (n % 1000) ++ scale) chunks) in
    if n == 0 then chunks else higher

unfoldable pub int_words_intl : ℕ → Text
int_words_intl n = if n == 0 then codes "Zero" else join (scale_loop scales n [])

unfoldable pub int_words_indian : ℕ → Text
int_words_indian n = words_loop n n

abbrev currency_units : List (Text × (Text × Text))
currency_units =
    (codes "INR", (codes "Rupees", codes "Paise"))
    ∷ (codes "NPR", (codes "Rupees", codes "Paisa"))
    ∷ (codes "LKR", (codes "Rupees", codes "Cents"))
    ∷ (codes "PKR", (codes "Rupees", codes "Paisa"))
    ∷ (codes "BDT", (codes "Taka", codes "Poisha"))
    ∷ (codes "USD", (codes "Dollars", codes "Cents"))
    ∷ (codes "AUD", (codes "Dollars", codes "Cents"))
    ∷ (codes "CAD", (codes "Dollars", codes "Cents"))
    ∷ (codes "SGD", (codes "Dollars", codes "Cents"))
    ∷ (codes "HKD", (codes "Dollars", codes "Cents"))
    ∷ (codes "NZD", (codes "Dollars", codes "Cents"))
    ∷ (codes "EUR", (codes "Euros", codes "Cents"))
    ∷ (codes "GBP", (codes "Pounds", codes "Pence"))
    ∷ (codes "AED", (codes "Dirhams", codes "Fils"))
    ∷ (codes "SAR", (codes "Riyals", codes "Halalas"))
    ∷ (codes "QAR", (codes "Riyals", codes "Dirhams"))
    ∷ (codes "JPY", (codes "Yen", codes "Sen"))
    ∷ (codes "KRW", (codes "Won", codes "Jeon"))
    ∷ (codes "TWD", (codes "Dollars", codes "Cents"))
    ∷ (codes "VND", (codes "Dong", codes "Hao"))
    ∷ (codes "CNY", (codes "Yuan", codes "Fen"))
    ∷ (codes "CHF", (codes "Francs", codes "Centimes"))
    ∷ (codes "ZAR", (codes "Rand", codes "Cents"))
    ∷ (codes "MYR", (codes "Ringgit", codes "Sen"))
    ∷ (codes "THB", (codes "Baht", codes "Satang"))
    ∷ (codes "IDR", (codes "Rupiah", codes "Sen"))
    ∷ (codes "PHP", (codes "Pesos", codes "Centavos"))
    ∷ []

abbrev pub is_indian : Text → Bool
is_indian code =
    ((text_eq code (codes "INR") || text_eq code (codes "NPR")) || text_eq code (codes "LKR"))
    || (text_eq code (codes "PKR") || text_eq code (codes "BDT"))

unfoldable pub int_words : Text → ℕ → Text
int_words code n = if is_indian code then int_words_indian n else int_words_intl n

abbrev or_inr : Text → Text
or_inr [] = codes "INR"
or_inr (c ∷ t) = c ∷ t

abbrev or_units : Text → Text
or_units [] = codes "Units"
or_units (c ∷ t) = c ∷ t

abbrev units_of : Text → Option (Text × Text) → Text × Text
units_of code none = (or_units code, codes "Cents")
units_of code (some units) = units

abbrev and_minor : ℕ → Text → Text
and_minor zero unit = []
and_minor (suc n) unit = codes " and " ++ (below_thousand (suc n) ++ (32 ∷ unit))

-- An amount of hundredths, without its sign.
abbrev spelled : Text → Text × Text → ℕ → Text
spelled code units size =
    units.0
    ++ (32 ∷ (int_words code (size / 100) ++ (and_minor (size % 100) units.1 ++ codes " Only")))

abbrev signed : Text → Text × Text → ℤ → Text
signed code units (pos n) = spelled code units n
signed code units (negsuc n) = codes "Minus " ++ spelled code units (suc n)

-- `amount` is in hundredths; an empty currency stands for none.
unfoldable pub amount_to_words : ℤ → Text → Text
amount_to_words amount currency =
    let code = upper (strip (or_inr currency)) in
    signed code (units_of code (lookup_text code currency_units)) amount
