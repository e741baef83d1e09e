-- ===== src/Credits.antt =====
-- app/services/enterprise/credit_service.py: the wallet of a company's credits and its ledger. Credits
-- of a computation are in ten-thousandths, those of a column in hundredths; a number of units is a
-- decimal. The rounding of the columns by the database, `column`, is a parameter. The wallet of a
-- company that has none yet is `none`. Descriptions, references and the log are left out; a write
-- that the database refuses is swallowed by the code and changes nothing.
pub mod Columns
pub mod Ledger
mod Examples
use Prim.Native.String.{String}
use croar_backend_new.Prelude.{
  ℕ, zero, suc, ◌+◌, ◌*◌, ◌^◌, Bool, true, false, Option, none, some, List, [], ◌∷◌, length, select,
  ◌==◌, if◌then◌else◌,
}
use croar_backend_new.Prelude.Int.{ℤ, pos, negsuc, ◌+ℤ◌, ◌-ℤ◌, sub_ℕ, pos_part, ltb_ℤ, leb_ℤ, sum_ℤ}
use croar_backend_new.Text.{Text, codes, text_eq, lookup_text}
use croar_backend_new.Money.{half_even, ◌*ℤ◌}

-- The table of rates, in hundredths of a credit.
abbrev pub credit_costs : List (Text × List (Text × ℕ))
credit_costs =
    (codes "sourcing", (codes "profile", 100) ∷ (codes "default", 100) ∷ [])
    ∷ (codes "ai", (codes "input_per_1k", 20) ∷ (codes "output_per_1k", 100) ∷ [])
    ∷ (codes "assessment", (codes "attempt", 300) ∷ (codes "default", 300) ∷ [])
    ∷ (codes "interview", (codes "session", 500) ∷ (codes "default", 500) ∷ [])
    ∷ []

-- 1000.00 credits, in hundredths.
abbrev pub initial_free_credits : ℕ
initial_free_credits = 100_000

abbrev or_table : Option (List (Text × ℕ)) → List (Text × ℕ)
or_table none = []
or_table (some t) = t

abbrev or_rate : Option ℕ → ℕ → ℕ
or_rate none rate = rate
or_rate (some r) rate = r

-- `action or "default"`
abbrev action_or_default : Text → Text
action_or_default [] = codes "default"
action_or_default (c ∷ t) = c ∷ t

unfoldable pub rate_of : Text → Text → ℕ
rate_of category action =
    let table = or_table (lookup_text category credit_costs) in
    or_rate (lookup_text (action_or_default action) table)
      (or_rate (lookup_text (codes "default") table) 0)

-- A positive number of units, `digits` over 10 ^ `places`.
pub record Units : Type 0 where
  pub digits : ℤ
  pub places : ℕ

-- The cost in hundredths, of at least zero units.
unfoldable pub cost_for : Text → Text → Units → ℕ
cost_for category action units =
    half_even (rate_of category action * pos_part units.digits) (10 ^ units.places)

-- The rates for a thousand tokens are 0.20 and 1.00, so that a token costs two or ten
-- ten-thousandths, and the four places of the result are exact.
unfoldable pub ai_credits_for_tokens : ℕ → ℕ → ℕ
ai_credits_for_tokens input_tokens output_tokens = 2 * input_tokens + 10 * output_tokens

pub data Kind : Type 0 where
  usage granted : Kind

-- `amount` and `balance_after` as their columns hold them.
pub record CreditTransaction : Type 0 where
  pub kind : Kind
  pub category : Option Text
  pub amount : ℤ
  pub balance_after : ℤ

pub record CreditAccount : Type 0 where
  pub balance : ℤ
  pub total_granted : ℤ
  pub total_used : ℤ

-- The newest transaction first.
pub record Wallet : Type 0 where
  pub account : Option CreditAccount
  pub transactions : List CreditTransaction

abbrev pub get_or_create_account : Option CreditAccount → CreditAccount
get_or_create_account none = record {
  balance = pos initial_free_credits;
  total_granted = pos initial_free_credits;
  total_used = pos 0;
}
get_or_create_account (some a) = a

-- Hundredths as ten-thousandths.
abbrev pub exact : ℤ → ℤ
exact n = ◌*ℤ◌ n (pos 100)

abbrev pub negative : ℤ → ℤ
negative n = pos 0 -ℤ n

module _ (column : ℤ → ℤ) where
  abbrev pub charged : CreditAccount → ℤ → CreditAccount
  charged a amount =
      let balance = column (exact a.balance +ℤ amount) in
      if ltb_ℤ amount (pos 0)
      then record a {
        balance = balance;
        total_used = column (exact a.total_used +ℤ negative amount);
      }
      else record a { balance = balance; total_granted = column (exact a.total_granted +ℤ amount) }

  -- `_write`, of an amount in ten-thousandths.
  unfoldable pub write : Kind → Option Text → ℤ → Wallet → Wallet
  write kind category amount w =
      let a = charged (get_or_create_account w.account) amount in
      record {
        account = some a;
        transactions =
            record {
              kind = kind;
              category = category;
              amount = column amount;
              balance_after = a.balance;
            }
            ∷ w.transactions;
      }

  -- Nothing is recorded for no company or for no units.
  unfoldable pub record_usage : Bool → Text → Text → Units → Wallet → Wallet
  record_usage company category action units w =
      if company
      then if leb_ℤ units.digits (pos 0)
        then w
        else write usage (some category) (negative (pos (100 * cost_for category action units))) w
      else w

  unfoldable pub record_ai_usage : Bool → ℕ → ℕ → Wallet → Wallet
  record_ai_usage company input_tokens output_tokens w =
      let credits = ai_credits_for_tokens input_tokens output_tokens in
      if company
      then if credits == 0 then w else write usage (some (codes "ai")) (negative (pos credits)) w
      else w

  -- `amount` is what `quantize` leaves of it, in hundredths.
  unfoldable pub grant : ℤ → Wallet → Wallet
  grant amount w = write granted none (exact amount) w
