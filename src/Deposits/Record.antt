-- ===== src/Deposits/Record.antt =====
-- `recordTransfer`, `recordRawTransaction` and `reconcileAddress` of
-- apps/api/src/deposits/deposits.service.ts.
use tenzopay.Base.{
  ℕ, suc, ltb_ℤ, String, str_eq, lower_codes, codes_eq, Option, none, some, Bool, true, false, not,
  ◌&&◌, ◌||◌, ◌==◌, if◌then◌else◌, List, [], ◌∷◌, length,
}
use tenzopay.Effects.{
  Thrown, app_error, Result, ok, err, Action, pure, throw, try_catch, ◌>>=◌, ◌>>◌,
}
use tenzopay.Queries.{read}
use tenzopay.Ledger.Books.{unique_violation}
use tenzopay.Ledger.Retry.{is_unique_violation}
use tenzopay.Deposits.State.{
  DepositSource, onchain, detected, TokenTransfer, Deposit, DepositAddress, deposit_detected, Vault,
  Config, Run, find_address, record_raw, create_row, find_existing, network_eq, find_transfer,
  find_deposit, find_address_of,
}
use tenzopay.Deposits.Advance.{notify_user, advance_confirmations}

-- `UNIQUE(network, txHash, logIndex)` of the raw observations
unfoldable pub has_observed : TokenTransfer → List TokenTransfer → Bool
has_observed t [] = false
has_observed t (o ∷ rest) =
    (network_eq o.network t.network && (str_eq o.tx_hash t.tx_hash && o.log_index == t.log_index))
    || has_observed t rest

-- `recordRawTransaction`: a duplicate is swallowed.
unfoldable pub insert_raw : Option Thrown → TokenTransfer → Action Vault (Unit {0})
insert_raw (some e) t s = if is_unique_violation e then (ok tt, s) else (err e, s)
insert_raw none t s =
    if has_observed t s.observed
    then (ok tt, s)
    else (ok tt, record s { observed = t ∷ s.observed })

unfoldable pub record_raw_transaction : Run → TokenTransfer → Action Vault (Unit {0})
record_raw_transaction run = insert_raw (run.fault record_raw)

abbrev pub detected_row :
    Config → Run → TokenTransfer → DepositSource → String → DepositAddress → Deposit
detected_row config run t source id address = record {
  id = id;
  user_id = address.user_id;
  network = t.network;
  amount = t.amount;
  currency = "USDT";
  status = detected;
  source = source;
  tx_hash = some t.tx_hash;
  log_index = some t.log_index;
  confirmations = 0;
  required_confirmations = config.confirmations;
  created_at = run.now;
  confirmed_at = none;
  ledger_transaction_id = none;
}

abbrev pub has_row : {A : Type 0} → Option A → Bool
has_row none = false
has_row (some a) = true

-- `deposit.create`: the id and `(network, txHash, logIndex)` are unique.
unfoldable pub create_deposit : Option Thrown → Deposit → TokenTransfer → Action Vault (Unit {0})
create_deposit (some e) row t s = (err e, s)
create_deposit none row t s =
    if has_row (find_deposit row.id s.deposits) || has_row (find_transfer t s.deposits)
    then (err unique_violation, s)
    else (ok tt, record s { deposits = row ∷ s.deposits })

-- The body of the `try`.
unfoldable pub record_new :
    Config
    → Run
    → TokenTransfer
    → DepositSource
    → String
    → DepositAddress
    → Action Vault (Option String)
record_new config run t source id address =
    create_deposit (run.fault create_row) (detected_row config run t source id address) t
    >> notify_user run address.user_id deposit_detected id
    >> advance_confirmations run id
    >> pure (some id)

abbrev pub advance_existing : Run → Option Deposit → Action Vault (Option String)
advance_existing run none = pure none
advance_existing run (some d) = advance_confirmations run d.id >> pure (some d.id)

-- The `catch`: a transfer that was seen before is advanced again.
unfoldable pub record_seen : Run → TokenTransfer → Thrown → Action Vault (Option String)
record_seen run t e =
    if is_unique_violation e
    then (read (run.fault find_existing) (λ s. find_transfer t s.deposits) >>= advance_existing run)
    else throw e

-- `recordTransfer` behind the look-up of the address.
unfoldable pub record_to :
    Config
    → Run
    → Run
    → TokenTransfer
    → DepositSource
    → String
    → Option DepositAddress
    → Action Vault (Option String)
unfolding try_catch
record_to config run again t source id none = record_raw_transaction run t >> pure none
record_to config run again t source id (some address) =
    record_raw_transaction run t
    >> (if ltb_ℤ t.amount config.min_amount
        then pure none
        else try_catch (record_new config run t source id address) (record_seen again t))

-- A configured contract that the transfer is not of.
abbrev pub is_unexpected : Config → TokenTransfer → Bool
is_unexpected config t =
    not (str_eq config.usdt_contract "")
    && not (codes_eq (lower_codes t.contract_address) (lower_codes config.usdt_contract))

-- Record an observed transfer; `id` is the new row's, and `again` is what the second half meets, when
-- the transfer was seen before.
unfoldable pub record_transfer :
    Config → Run → Run → TokenTransfer → DepositSource → String → Action Vault (Option String)
record_transfer config run again t source id =
    if is_unexpected config t
    then record_raw_transaction run t >> pure none
    else read (run.fault find_address) (λ s. find_address_of t s.addresses)
      >>= record_to config run again t source id

-- `depositAddress.findUnique({ where: { id } })`
unfoldable pub has_address : String → List DepositAddress → Bool
has_address id [] = false
has_address id (a ∷ rest) = str_eq a.id id || has_address id rest

-- What one transfer of a page meets, with the id of its row.
pub record Turn : Type 0 where
  pub run : Run
  pub again : Run
  pub new_id : String

abbrev pub count_if : Bool → ℕ → ℕ
count_if true n = suc n
count_if false n = n

-- The loop of `reconcileAddress`; `turns n` is what the transfer at place `n` meets.
unfoldable pub record_each : Config → (ℕ → Turn) → ℕ → List TokenTransfer → ℕ → Action Vault ℕ
record_each config turns n [] recorded = pure recorded
record_each config turns n (t ∷ rest) recorded =
    record_transfer config (turns n).run (turns n).again t onchain (turns n).new_id >>= λ id.
    record_each config turns (suc n) rest (count_if (has_row id) recorded)

unfoldable pub record_page :
    Config → (ℕ → Turn) → Result (List TokenTransfer) → Action Vault (ℕ × ℕ)
record_page config turns (err e) = throw e
record_page config turns (ok transfers) =
    record_each config turns 0 transfers 0 >>= λ recorded. pure (length transfers, recorded)

-- The numbers of transfers that were found and that were recorded; `page` is what the chain answers.
unfoldable pub reconcile_address :
    Config
    → Option Thrown
    → Result (List TokenTransfer)
    → (ℕ → Turn)
    → String
    → Action Vault (ℕ × ℕ)
reconcile_address config fault page turns address_id =
    read fault (λ s. has_address address_id s.addresses) >>= λ known.
    if not known
    then throw (app_error "NOT_FOUND" "Deposit address not found.")
    else if str_eq config.usdt_contract ""
    then pure (0, 0)
    else record_page config turns page
