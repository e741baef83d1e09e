-- ===== src/Credits/Ledger.antt =====
-- The balance of a wallet against the ledger of its transactions.
use croar_backend_new.Prelude.{
  ℕ, suc, ◌*◌, ◌≤◌, ◌≡◌, Bool, true, false, Option, none, some, List, [], ◌∷◌, map, length, select,
  inl, inr, Bool-cases, ◌==◌, arith,
}
use croar_backend_new.Prelude.Int.{ℤ, pos, ◌+ℤ◌, ◌-ℤ◌, ltb_ℤ, leb_ℤ, sum_ℤ, int_laws}
use croar_backend_new.Text.{Text, codes, text_eq}
use croar_backend_new.Credits.{
  Kind, usage, granted, CreditTransaction, CreditAccount, Wallet, Units, get_or_create_account,
  initial_free_credits, exact, negative, charged, write, record_usage, record_ai_usage, grant,
  cost_for, ai_credits_for_tokens,
}
use croar_backend_new.Credits.Columns.{
  IsNear, IsNearest, exact_parts, balance-IsNear, used-IsNear, column_sum, column_whole,
  column_less,
}

-- The sum of the amounts in the ledger.
abbrev pub ledger : List CreditTransaction → ℤ
ledger ts = sum_ℤ (map (λ t. t.amount) ts)

-- The balance is within n hundredths of the free credits and the amounts, and of what was granted less
-- what was used.
abbrev pub HasDrift : ℕ → CreditAccount → List CreditTransaction → Type 0
HasDrift n a ts =
    IsNear n a.balance (pos initial_free_credits +ℤ ledger ts)
    × IsNear n (a.balance +ℤ a.total_used) a.total_granted

-- The transactions of the meter of the language model.
abbrev pub is_ai : CreditTransaction → Bool
is_ai t = is_ai_category t.category
  where
    is_ai_category : Option Text → Bool
    is_ai_category none = false
    is_ai_category (some c) = text_eq c (codes "ai")

abbrev pub ai_calls : List CreditTransaction → ℕ
ai_calls ts = length (select is_ai ts)

-- A wallet whose balance is off by no more hundredths than there were charges for AI use; a wallet
-- that does not exist yet has no transactions.
abbrev pub Audited : Option CreditAccount → List CreditTransaction → Type 0
Audited none ts = ts ≡ []
Audited (some a) ts = HasDrift (ai_calls ts) a ts

abbrev pub IsAudited : Wallet → Type 0
IsAudited w = Audited w.account w.transactions

opened :
    (o : Option CreditAccount) (ts : List CreditTransaction)
    → Audited o ts
    → HasDrift (ai_calls ts) (get_or_create_account o) ts
opened none ts h = rw h ((omega int_laws, omega int_laws), (omega int_laws, omega int_laws))
opened (some a) ts h = h

more_drift :
    (n k : ℕ) (a : CreditAccount) (ts : List CreditTransaction)
    → n ≤ k
    → HasDrift n a ts
    → HasDrift k a ts
more_drift n k a ts le h = ((omega int_laws, omega int_laws), (omega int_laws, omega int_laws))

-- A new row of the ledger.
abbrev row : Kind → Option Text → ℤ → ℤ → CreditTransaction
row kind category amount after = record {
  kind = kind;
  category = category;
  amount = amount;
  balance_after = after;
}

ai_calls-le :
    (t : CreditTransaction) (ts : List CreditTransaction) → ai_calls ts ≤ ai_calls (t ∷ ts)
ai_calls-le t ts = elim (Bool-cases (is_ai t)) [
  | inl y ↦ rw y (omega arith)
  | inr n ↦ rw n (omega arith)
]

module _ (n : ℕ) (free led m bal used grt : ℤ) where
  whole_balance : IsNear n bal (free +ℤ led) → IsNear n (bal +ℤ m) (free +ℤ (m +ℤ led))
  whole_balance h = (omega int_laws, omega int_laws)

  whole_debit : IsNear n (bal +ℤ used) grt → IsNear n ((bal +ℤ m) +ℤ (used -ℤ m)) grt
  whole_debit h = (omega int_laws, omega int_laws)

  whole_credit : IsNear n (bal +ℤ used) grt → IsNear n ((bal +ℤ m) +ℤ used) (grt +ℤ m)
  whole_credit h = (omega int_laws, omega int_laws)

negative-exact : (c : ℕ) → negative (pos (100 * c)) ≡ exact (negative (pos c))
negative-exact c = let p = exact_parts (negative (pos c)) in omega int_laws

is_debit : (c : ℕ) → (c == 0) ≡ false → ltb_ℤ (negative (pos c)) (pos 0) ≡ true
unfolding ◌-ℤ◌
is_debit c h = ground arith

module _ (column : ℤ → ℤ) (nearest : IsNearest column) where
  -- A debit of any size drifts by a hundredth at most.
  charged_debit :
      (n : ℕ) (a : CreditAccount) (amount after : ℤ) (kind : Kind) (category : Option Text)
      (ts : List CreditTransaction)
      → ltb_ℤ amount (pos 0) ≡ true
      → HasDrift n a ts
      → HasDrift (suc n) (charged column a amount) (row kind category (column amount) after ∷ ts)
  charged_debit n a amount after kind category ts neg h =
      let b = balance-IsNear column nearest a.balance amount in
      let u = used-IsNear column nearest a.balance a.total_used amount in
      rw neg ((omega int_laws, omega int_laws), (omega int_laws, omega int_laws))

  -- Whole hundredths do not drift.
  charged_whole :
      (n : ℕ) (a : CreditAccount) (m after : ℤ) (kind : Kind) (category : Option Text)
      (ts : List CreditTransaction)
      → HasDrift n a ts
      → HasDrift n (charged column a (exact m)) (row kind category (column (exact m)) after ∷ ts)
  charged_whole n a m after kind category ts h =
      let b = column_sum column nearest a.balance m in
      let s = column_whole column nearest m in
      let free = pos initial_free_credits in
      elim (Bool-cases (ltb_ℤ (exact m) (pos 0))) [
        | inl y ↦
            let u = column_less column nearest a.total_used m in
            rw (y, b, s, u)
              (
                whole_balance n free (ledger ts) m a.balance a.total_used a.total_granted h.0,
                whole_debit n free (ledger ts) m a.balance a.total_used a.total_granted h.1,
              )
        | inr k ↦
            let g = column_sum column nearest a.total_granted m in
            rw (k, b, s, g)
              (
                whole_balance n free (ledger ts) m a.balance a.total_used a.total_granted h.0,
                whole_credit n free (ledger ts) m a.balance a.total_used a.total_granted h.1,
              )
      ]

  written_whole :
      (kind : Kind) (category : Option Text) (m : ℤ) (w : Wallet)
      → IsAudited w
      → IsAudited (write column kind category (exact m) w)
  unfolding write
  written_whole kind category m w h =
      let a = get_or_create_account w.account in
      let new = charged column a (exact m) in
      let t = row kind category (column (exact m)) new.balance in
      more_drift (ai_calls w.transactions) (ai_calls (t ∷ w.transactions)) new (t ∷ w.transactions)
        (ai_calls-le t w.transactions)
        (charged_whole (ai_calls w.transactions) a m new.balance kind category w.transactions
          (opened w.account w.transactions h))

  written_ai :
      (c : ℕ) (w : Wallet)
      → (c == 0) ≡ false
      → IsAudited w
      → IsAudited (write column usage (some (codes "ai")) (negative (pos c)) w)
  unfolding write
  written_ai c w positive h =
      let a = get_or_create_account w.account in
      charged_debit (ai_calls w.transactions) a (negative (pos c))
        (charged column a (negative (pos c))).balance usage (some (codes "ai")) w.transactions
        (is_debit c positive) (opened w.account w.transactions h)

  record_usage-IsAudited :
      (company : Bool) (category action : Text) (units : Units) (w : Wallet)
      → IsAudited w
      → IsAudited (record_usage column company category action units w)
  unfolding record_usage
  record_usage-IsAudited false category action units w h = h
  record_usage-IsAudited true category action units w h =
      elim (Bool-cases (leb_ℤ units.digits (pos 0))) [
        | inl y ↦ rw y h
        | inr n ↦ rw n (
            rw (negative-exact (cost_for category action units))
              (written_whole usage (some category) _ w h))
      ]

  record_ai_usage-IsAudited :
      (company : Bool) (input output : ℕ) (w : Wallet)
      → IsAudited w
      → IsAudited (record_ai_usage column company input output w)
  unfolding record_ai_usage
  record_ai_usage-IsAudited false input output w h = h
  record_ai_usage-IsAudited true input output w h =
      elim (Bool-cases (ai_credits_for_tokens input output == 0)) [
        | inl y ↦ rw y h
        | inr n ↦ rw n (written_ai (ai_credits_for_tokens input output) w n h)
      ]

  grant-IsAudited : (amount : ℤ) (w : Wallet) → IsAudited w → IsAudited (grant column amount w)
  unfolding grant
  grant-IsAudited amount w h = written_whole granted none amount w h

-- What is done to a wallet.
pub data Op : Type 0 where
  meter : (company : Bool) (category action : Text) → Units → Op
  ai_call : (company : Bool) (input output : ℕ) → Op
  top_up : ℤ → Op

abbrev pub run : (ℤ → ℤ) → List Op → Wallet → Wallet
run column [] w = w
run column (meter company category action units ∷ ops) w =
    run column ops (record_usage column company category action units w)
run column (ai_call company input output ∷ ops) w =
    run column ops (record_ai_usage column company input output w)
run column (top_up amount ∷ ops) w = run column ops (grant column amount w)

-- Whatever is recorded and granted in whatever order, from a wallet that is audited, and with columns
-- that hold a nearest hundredth, the wallet stays audited: its balance is within n hundredths of the
-- free credits and the sum of the amounts in the ledger, and of what was granted less what was used,
-- for the number n of transactions of the AI meter. With none of those both are equal.
pub run-IsAudited :
    (column : ℤ → ℤ)
    → IsNearest column
    → (ops : List Op) (w : Wallet) → IsAudited w
    → IsAudited (run column ops w)
run-IsAudited column nearest [] w h = h
run-IsAudited column nearest (meter company category action units ∷ ops) w h =
    run-IsAudited column nearest ops _
      (record_usage-IsAudited column nearest company category action units w h)
run-IsAudited column nearest (ai_call company input output ∷ ops) w h =
    run-IsAudited column nearest ops _
      (record_ai_usage-IsAudited column nearest company input output w h)
run-IsAudited column nearest (top_up amount ∷ ops) w h =
    run-IsAudited column nearest ops _ (grant-IsAudited column nearest amount w h)
