-- ===== src/Deposits/Watch.antt =====
-- `watchCreditedForReorg` of apps/api/src/deposits/deposits.service.ts.
use tenzopay.Base.{
  ℕ, zero, suc, ◌-◌, ◌*◌, leb, ◌==◌, ℤ, pos, String, Option, none, some, Bool, true, false, ◌&&◌,
  if◌then◌else◌, List, [], ◌∷◌, length,
}
use tenzopay.Effects.{Thrown, Result, ok, err, Action, pure, continue, ◌>>=◌}
use tenzopay.Queries.{read, write}
use tenzopay.Ledger.Books.{FeeRow}
use tenzopay.Ledger.Methods.{reverse_deposit}
use tenzopay.Deposits.State.{
  DepositSource, onchain, demo, Deposit, Vault, Config, Run, find_fee, mark_orphaned,
  update_deposit, with_deposits, on_books,
}
use tenzopay.Deposits.Advance.{is_confirmed, orphaned_row}

abbrev pub is_onchain : DepositSource → Bool
is_onchain onchain = true
is_onchain demo = false

-- `confirmedAt: { gte: since }`
abbrev pub is_since : ℕ → Option ℕ → Bool
is_since since none = false
is_since since (some t) = leb since t

abbrev pub is_there : Option String → Bool
is_there none = false
is_there (some s) = true

abbrev pub is_watched : ℕ → Deposit → Bool
is_watched since d =
    is_confirmed d.status
    && (is_onchain d.source && (is_since since d.confirmed_at && is_there d.tx_hash))

-- The deposits that are watched, at most so many.
unfoldable pub watched : ℕ → ℕ → List Deposit → List Deposit
watched zero since deposits = []
watched (suc limit) since [] = []
watched (suc limit) since (d ∷ rest) =
    let taken = watched limit since rest in
    let passed = watched (suc limit) since rest in if is_watched since d then d ∷ taken else passed

-- `fee.findFirst({ where: { ledgerTransactionId } })`, its amount, or 0
unfoldable pub fee_amount : ℕ → List FeeRow → ℤ
fee_amount id [] = pos 0
fee_amount id (f ∷ rest) = if f.ledger_transaction_id == id then f.amount else fee_amount id rest

unfoldable pub read_fee : Run → Option ℕ → Action Vault ℤ
read_fee run none = pure (pos 0)
read_fee run (some id) = read (run.fault find_fee) (λ s. fee_amount id s.books.fees)

unfoldable pub mark_reversed : Run → Deposit → ℕ → Action Vault Bool
mark_reversed run d id =
    write (run.fault mark_orphaned) (with_deposits (update_deposit d.id orphaned_row)) >>= λ u.
    pure true

-- The reversal of a deposit whose transaction is gone.
unfoldable pub reverse_net : Run → Deposit → ℤ → Action Vault Bool
reverse_net run d fee s =
    continue (mark_reversed run d)
      (on_books (reverse_deposit run.weather d.user_id d.id d.amount fee d.currency s.books) s)

-- One turn of the loop: whether the deposit was reversed.
unfoldable pub watch_answer : Run → Deposit → Result (Option ℕ) → Action Vault Bool
watch_answer run d (err e) s = (ok false, s)
watch_answer run d (ok (some n)) s = (ok false, s)
watch_answer run d (ok none) s = (read_fee run d.ledger_transaction_id >>= reverse_net run d) s

abbrev pub hash_of : Deposit → String
hash_of d = elim d.tx_hash [ some hash ↦ hash | none ↦ "" ]

unfoldable pub watch_each : (String → Run) → List Deposit → ℕ → Action Vault ℕ
watch_each runs [] reversed = pure reversed
watch_each runs (d ∷ rest) reversed =
    watch_answer (runs d.id) d ((runs d.id).confirmations (hash_of d)) >>= λ done.
    watch_each runs rest (if done then suc reversed else reversed)

abbrev hour : ℕ
hour = 3600000

-- The numbers of deposits that were checked and that were reversed.
unfoldable pub watch_credited_for_reorg :
    Config → ℕ → ℕ → Option Thrown → (String → Run) → Action Vault (ℕ × ℕ)
watch_credited_for_reorg config now window_hours fault runs =
    if config.is_demo
    then pure (0, 0)
    else read fault (λ s. watched 200 (now - window_hours * hour) s.deposits) >>= λ credited.
        watch_each runs credited 0 >>= λ reversed. pure (length credited, reversed)
