-- ===== src/Ledger/Movements.antt =====
-- The bodies of the `$transaction` blocks of apps/api/src/ledger/ledger.service.ts that move money,
-- one for each method. `currency` is the parameter after `params.currency ?? 'USDT'`.
use tenzopay.Base.{
  ℕ, ℤ, pos, ◌-ℤ◌, neg_ℤ, ltb_ℤ, String, ◌<>◌, none, some, ◌||◌, if◌then◌else◌, List, [], ◌∷◌, ◌++◌,
}
use tenzopay.Effects.{insufficient_balance, other, ok, Action, pure, throw, throw_if, ◌>>=◌, ◌>>◌}
use tenzopay.Ledger.Books.{
  LedgerDirection, debit, credit, LedgerTransactionType, FeeType, AccountKey, EntryInput, Books,
  find_transaction, create_fee,
}
use tenzopay.Ledger.Books
use tenzopay.Ledger.Posting.{ensure_account, post}
use tenzopay.Ledger.Balances.{get_account_balance, get_balance}

abbrev pub available_of : String → String → AccountKey
available_of user currency = record {
  kind = Books.user_available;
  user_id = some user;
  currency = currency;
}

abbrev pub held_of : String → String → AccountKey
held_of user currency = record { kind = Books.user_held; user_id = some user; currency = currency }

-- The global account of a SYSTEM_* kind: its `userId` is null.
abbrev pub system_of : Books.LedgerAccountKind → String → AccountKey
system_of kind currency = record { kind = kind; user_id = none; currency = currency }

abbrev pub entry : ℕ → LedgerDirection → ℤ → String → EntryInput
entry id direction amount currency = record {
  account_id = id;
  direction = direction;
  amount = amount;
  currency = currency;
}

-- `if (fee > 0n) { feeRevenue = await ensureAccount(...); entries.push(...) }`
unfoldable pub fee_entries : LedgerDirection → ℤ → String → Action Books (List EntryInput)
fee_entries direction fee currency b =
    if ltb_ℤ (pos 0) fee
    then (do
      fee_revenue ← ensure_account (system_of Books.system_fee_revenue currency)
      pure (entry fee_revenue direction fee currency ∷ []))
        b
    else pure [] b

-- `if (fee > 0n) await tx.fee.create(...)`
unfoldable pub record_fee : String → FeeType → ℤ → String → ℕ → Action Books (Unit {0})
record_fee user type fee currency transaction_id b =
    if ltb_ℤ (pos 0) fee
    then create_fee
        (record {
          user_id = user;
          type = type;
          amount = fee;
          currency = currency;
          ledger_transaction_id = transaction_id;
        })
        b
    else pure tt b

-- Credit a confirmed deposit, net of its fee.
unfoldable pub credit_deposit_body : String → String → ℤ → ℤ → String → Action Books ℕ
credit_deposit_body user deposit_id amount fee currency = do
  user_available ← ensure_account (available_of user currency)
  clearing ← ensure_account (system_of Books.system_deposit_clearing currency)
  throw_if (ltb_ℤ fee (pos 0) || ltb_ℤ amount fee)
      (other "Deposit fee must be between zero and the deposit amount")
  fee_leg ← fee_entries credit fee currency
  id ← post Books.deposit_confirmed ("deposit:" <> deposit_id <> ":confirm") (
      entry clearing debit amount currency
      ∷ entry user_available credit (amount -ℤ fee) currency
      ∷ fee_leg)
  record_fee user Books.deposit fee currency id
  pure id

-- Take a credited deposit back out, with its fee.
unfoldable pub reverse_deposit_body : String → String → ℤ → ℤ → String → Action Books ℕ
reverse_deposit_body user deposit_id amount fee currency = do
  available ← ensure_account (available_of user currency)
  clearing ← ensure_account (system_of Books.system_deposit_clearing currency)
  fee_leg ← fee_entries debit fee currency
  post Books.deposit_reversed ("deposit:" <> deposit_id <> ":reverse") (
      entry available debit (amount -ℤ fee) currency
      ∷ entry clearing credit amount currency
      ∷ fee_leg)

-- `if (available < amount) throw new InsufficientBalanceError(available, amount)`
unfoldable pub require_funds : ℕ → ℤ → Action Books ℤ
require_funds account amount b =
    let available = get_account_balance account b in
    if ltb_ℤ available amount
    then (throw (insufficient_balance available amount)) b
    else pure available b

-- `chargeFee` behind its look-up: charge a fee straight from the available balance.
unfoldable pub new_charge : String → String → ℤ → FeeType → String → Action Books ℕ
new_charge user key amount type currency = do
  available ← ensure_account (available_of user currency)
  fee_revenue ← ensure_account (system_of Books.system_fee_revenue currency)
  require_funds available amount
  id ←
      post Books.fee key
        (entry available debit amount currency ∷ entry fee_revenue credit amount currency ∷ [])
  create_fee (record {
    user_id = user;
    type = type;
    amount = amount;
    currency = currency;
    ledger_transaction_id = id;
  })
  pure id

-- A key that has been charged is not charged again.
unfoldable pub charge_fee_body : String → String → ℤ → FeeType → String → Action Books ℕ
charge_fee_body user key amount type currency b = elim (find_transaction key b.transactions) [
  | some id ↦ (ok id, b)
  | none ↦ new_charge user key amount type currency b
]

pub record Hold : Type 0 where
  pub ledger_transaction_id : ℕ
  pub available_after : ℤ

abbrev hold : ℕ → ℤ → Action Books Hold
hold id after = pure (record { ledger_transaction_id = id; available_after = after })

-- `placeHold` behind its look-up: available to held, if the available balance covers it.
unfoldable pub new_hold : String → String → ℤ → String → Action Books Hold
new_hold user key amount currency = do
  available ← ensure_account (available_of user currency)
  held ← ensure_account (held_of user currency)
  funds ← require_funds available amount
  id ←
      post Books.card_authorization key
        (entry available debit amount currency ∷ entry held credit amount currency ∷ [])
  hold id (funds -ℤ amount)

-- If this exact authorization was already held, return it unchanged.
unfoldable pub place_hold_body : String → String → ℤ → String → Action Books Hold
place_hold_body user key amount currency b = elim (find_transaction key b.transactions) [
  | some id ↦ hold id (get_balance user currency b).available b
  | none ↦ new_hold user key amount currency b
]

-- Release a hold back to available.
unfoldable pub release_hold_body : String → String → ℤ → String → Action Books ℕ
release_hold_body user key amount currency = do
  available ← ensure_account (available_of user currency)
  held ← ensure_account (held_of user currency)
  post Books.card_authorization_reversal key
      (entry held debit amount currency ∷ entry available credit amount currency ∷ [])

-- `if (settledAmount > 0n) entries.push(...)`
abbrev pub settled_entries : ℕ → ℤ → String → List EntryInput
settled_entries settlement settled currency =
    if ltb_ℤ (pos 0) settled then entry settlement credit settled currency ∷ [] else []

-- What the hold does not cover comes from available; what it over-covers goes back.
abbrev pub remainder_entries : ℕ → ℤ → String → List EntryInput
remainder_entries available remainder currency =
    if ltb_ℤ remainder (pos 0)
    then entry available debit (neg_ℤ remainder) currency ∷ []
    else if ltb_ℤ (pos 0) remainder
    then entry available credit remainder currency ∷ []
    else []

-- Settle a cleared card transaction, held to card settlement, collecting the reserved fee.
unfoldable pub settle_authorization_body : String → String → ℤ → ℤ → ℤ → String → Action Books ℕ
settle_authorization_body user key held_amount settled_amount fee currency = do
  available ← ensure_account (available_of user currency)
  held ← ensure_account (held_of user currency)
  settlement ← ensure_account (system_of Books.system_card_settlement currency)
  fee_leg ← fee_entries credit fee currency
  id ← post Books.card_settlement key (
      entry held debit held_amount currency
      ∷ (settled_entries settlement settled_amount currency
          ++ (fee_leg
              ++ remainder_entries available (held_amount -ℤ settled_amount -ℤ fee) currency)))
  record_fee user Books.fx fee currency id
  pure id

-- Merchant refund: credits the available balance.
unfoldable pub credit_refund_body : String → String → ℤ → String → Action Books ℕ
credit_refund_body user key amount currency = do
  available ← ensure_account (available_of user currency)
  settlement ← ensure_account (system_of Books.system_card_settlement currency)
  post Books.card_refund key
      (entry settlement debit amount currency ∷ entry available credit amount currency ∷ [])

-- `params.amount < 0n ? -params.amount : params.amount`
abbrev pub magnitude : ℤ → ℤ
magnitude amount = if ltb_ℤ amount (pos 0) then neg_ℤ amount else amount

-- Admin adjustment: a signed amount, posted against SYSTEM_ADJUSTMENT.
unfoldable pub post_adjustment_body : String → String → ℤ → String → Action Books ℕ
post_adjustment_body user key amount currency = do
  available ← ensure_account (available_of user currency)
  adjustment ← ensure_account (system_of Books.system_adjustment currency)
  (if ltb_ℤ (pos 0) amount then pure amount else require_funds available (magnitude amount))
  post Books.admin_adjustment key (
      if ltb_ℤ (pos 0) amount
      then entry adjustment debit (magnitude amount) currency
        ∷ entry available credit (magnitude amount) currency
        ∷ []
      else entry available debit (magnitude amount) currency
        ∷ entry adjustment credit (magnitude amount) currency
        ∷ [])
