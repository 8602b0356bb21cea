-- ===== src/Deposits/Advance.antt =====
-- `advanceConfirmations`, `credit`, `notify` and `advanceAllPending` of
-- apps/api/src/deposits/deposits.service.ts. The deposit table is written by one method at a time; the
-- ledger by any number.
use tenzopay.Base.{
  ℕ, zero, suc, ◌-◌, ltb, String, Option, none, some, Bool, true, false, not, ◌&&◌, ◌||◌,
  if◌then◌else◌, List, [], ◌∷◌, length,
}
use tenzopay.Effects.{Thrown, Result, ok, err, Action, pure, continue, ◌>>=◌, ◌>>◌}
use tenzopay.Queries.{read, write, write_quietly, with_result}
use tenzopay.Ledger.Methods.{credit_deposit}
use tenzopay.Fees.Rates.{DepositRates, deposit_fee}
use tenzopay.Deposits.State.{
  DepositStatus, detected, confirming, confirmed, failed, orphaned, Deposit, NotificationType,
  deposit_confirmed, Vault, Run, find_row, update_row, find_uncredited, mark_confirmed, find_before,
  find_after, notify, find_deposit, update_deposit, with_deposits, on_books,
}

abbrev pub is_confirmed : DepositStatus → Bool
is_confirmed confirmed = true
is_confirmed _ = false

-- The statuses at which a deposit is no longer watched.
abbrev pub is_final : DepositStatus → Bool
is_final confirmed = true
is_final failed = true
is_final orphaned = true
is_final _ = false

abbrev pub is_credited : Deposit → Bool
is_credited d =
    is_confirmed d.status || elim d.ledger_transaction_id [ some id ↦ true | none ↦ false ]

-- `notify`: a failure is swallowed.
unfoldable pub notify_user : Run → String → NotificationType → String → Action Vault (Unit {0})
notify_user run user type deposit = write_quietly (run.fault notify) (λ s. record s {
  notifications = record { user_id = user; type = type; deposit_id = deposit } ∷ s.notifications;
})

abbrev pub confirmed_row : Run → ℕ → ℕ → Deposit → Deposit
confirmed_row run confirmations id d = record d {
  status = confirmed;
  confirmations = confirmations;
  confirmed_at = some run.now;
  ledger_transaction_id = some id;
}

-- `credit` behind the call of the ledger.
unfoldable pub confirm : Run → ℕ → Deposit → ℕ → Action Vault (Unit {0})
confirm run confirmations d id =
    write (run.fault mark_confirmed)
      (with_deposits (update_deposit d.id (confirmed_row run confirmations id)))
    >> notify_user run d.user_id deposit_confirmed d.id

unfoldable pub credit_net : Run → ℕ → Deposit → DepositRates → Action Vault (Unit {0})
credit_net run confirmations d rates s = continue (confirm run confirmations d) (
    on_books
      (credit_deposit run.weather d.user_id d.id d.amount (deposit_fee rates d.amount) d.currency
        s.books)
      s)

-- `credit` behind its look-up.
unfoldable pub credit_row : Run → ℕ → Option Deposit → Action Vault (Unit {0})
credit_row run confirmations none s = (ok tt, s)
credit_row run confirmations (some d) s =
    if is_credited d then (ok tt, s) else with_result run.rates (credit_net run confirmations d) s

unfoldable pub credit : Run → String → ℕ → Action Vault (Unit {0})
credit run id confirmations =
    read (run.fault find_uncredited) (λ s. find_deposit id s.deposits)
    >>= credit_row run confirmations

abbrev pub ten_minutes : ℕ
ten_minutes = 600000

abbrev pub orphaned_row : Deposit → Deposit
orphaned_row d = record d { status = orphaned }

abbrev pub confirming_row : ℕ → Deposit → Deposit
confirming_row n d = record d { status = confirming; confirmations = n }

-- What the node's answer does to a deposit that is not final.
unfoldable pub observe : Run → Deposit → Result (Option ℕ) → Action Vault (Unit {0})
observe run d (err e) s = (ok tt, s)
observe run d (ok none) s =
    if ltb ten_minutes (run.now - d.created_at)
    then write (run.fault update_row) (with_deposits (update_deposit d.id orphaned_row)) s
    else (ok tt, s)
observe run d (ok (some n)) s =
    if ltb n d.required_confirmations
    then write (run.fault update_row) (with_deposits (update_deposit d.id (confirming_row n))) s
    else credit run d.id n s

-- `advanceConfirmations` behind its look-up.
unfoldable pub advance_row : Run → Option Deposit → Action Vault (Unit {0})
advance_row run none s = (ok tt, s)
advance_row run (some d) s = elim d.tx_hash [
  | none ↦ (ok tt, s)
  | some hash ↦ if is_final d.status then (ok tt, s) else observe run d (run.confirmations hash) s
]

unfoldable pub advance_confirmations : Run → String → Action Vault (Unit {0})
advance_confirmations run id =
    read (run.fault find_row) (λ s. find_deposit id s.deposits) >>= advance_row run

abbrev pub is_pending : DepositStatus → Bool
is_pending detected = true
is_pending confirming = true
is_pending _ = false

-- The ids that `advanceAllPending` takes.
unfoldable pub pending_ids : ℕ → List Deposit → List String
pending_ids zero deposits = []
pending_ids (suc limit) [] = []
pending_ids (suc limit) (d ∷ rest) =
    let taken = pending_ids limit rest in
    let passed = pending_ids (suc limit) rest in
    if is_pending d.status then d.id ∷ taken else passed

abbrev pub confirmed_in : Option Deposit → Bool
confirmed_in none = false
confirmed_in (some d) = is_confirmed d.status

-- The loop of `advanceAllPending`; each id has a run of its own, and a throw ends the loop.
unfoldable pub advance_each : (String → Run) → List String → ℕ → Action Vault ℕ
advance_each runs [] credited = pure credited
advance_each runs (id ∷ ids) credited =
    let is_done = λ (s : Vault). confirmed_in (find_deposit id s.deposits) in
    read ((runs id).fault find_before) is_done >>= λ before.
    advance_confirmations (runs id) id >> read ((runs id).fault find_after) is_done >>= λ after.
    advance_each runs ids (if not before && after then suc credited else credited)

-- The number of pending deposits that it looked at, and of those that it credited.
unfoldable pub advance_all_pending : Option Thrown → (String → Run) → Action Vault (ℕ × ℕ)
advance_all_pending fault runs = read fault (λ s. pending_ids 200 s.deposits) >>= λ ids.
    advance_each runs ids 0 >>= λ credited. pure (length ids, credited)
