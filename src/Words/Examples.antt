-- ===== src/Words/Examples.antt =====
-- Amounts in words.
use croar_backend_new.Prelude.{◌≡◌, refl, true, arith}
use croar_backend_new.Prelude.Int.{pos, negsuc}
use croar_backend_new.Text.{codes, text_eq}
use croar_backend_new.Words.{
  two_digits, below_thousand, words_loop, int_words_indian, scale_loop, int_words_intl, int_words,
  amount_to_words,
}
use croar_backend_new.Words.Reading.{value}
use croar_backend_new.Words.Intl.{value-int_words}

program : Unit {0}
unfolding two_digits below_thousand words_loop int_words_indian scale_loop int_words_intl int_words
    amount_to_words
program = tt

rupees :
    text_eq
      (amount_to_words (pos 1_234_550) (codes "inr"))
      (codes "Rupees Twelve Thousand Three Hundred Forty-Five and Fifty Paise Only")
    ≡ true
unfolding program
rupees = refl

dollars :
    text_eq
      (amount_to_words (negsuc 100_000_099) (codes "USD"))
      (codes "Minus Dollars One Million One Only")
    ≡ true
unfolding program
dollars = refl

crores :
    text_eq (int_words_indian 12_345_678_900) (
      codes
        "One Thousand Two Hundred Thirty-Four Crore Fifty-Six Lakh Seventy-Eight Thousand Nine Hundred")
    ≡ true
unfolding program
crores = refl

value-int_words_example : value (int_words (codes "USD") 1_000_021) ≡ 1_000_021
value-int_words_example = value-int_words (codes "USD") 1_000_021 (omega arith)
