-- ===== src/Ledger/Retry.antt =====
-- `isSerializationConflict`, `withSerializableRetry` and `resolveDuplicate` of
-- apps/api/src/ledger/ledger.service.ts, against a database that other connections write to and that
-- may abort an attempt.
use tenzopay.Base.{
  ℕ, zero, suc, String, str_eq, id_eq, lower_includes, Option, none, some, Bool, true, false, ◌||◌,
}
use tenzopay.Effects.{
  Thrown, insufficient_balance, ledger_imbalance, prisma_known, app_error, other, Result, ok, err,
  Action, transaction,
}
use tenzopay.Ledger.Books.{Books, find_transaction}

-- `err.message`
abbrev pub message_of : Thrown → String
message_of (insufficient_balance _ _) = "Insufficient available balance for this transaction."
message_of (ledger_imbalance _) =
    "A ledger consistency check failed. The operation was not applied."
message_of (prisma_known _ _ message) = message
message_of (app_error _ message) = message
message_of (other message) = message

unfoldable pub conflict_message : String → Bool
unfolding lower_includes
conflict_message message =
    lower_includes message "could not serialize"
    || (lower_includes message "deadlock"
        || (lower_includes message "write conflict"
            || (lower_includes message "40001" || lower_includes message "40p01")))

abbrev conflict_code : Thrown → Bool
conflict_code (prisma_known code meta_code _) =
    str_eq code "P2034" || (id_eq meta_code (some "40001") || id_eq meta_code (some "40P01"))
conflict_code _ = false

unfoldable pub is_serialization_conflict : Thrown → Bool
unfolding conflict_message str_eq id_eq
is_serialization_conflict e = conflict_code e || conflict_message (message_of e)

-- What happens around one attempt: the writes that others commit before it, and the error by which
-- the database aborts it, if it does.
pub record Interference (S : Type 0) : Type 0 where
  pub others : S → S
  pub fault : Option Thrown

unfoldable pub attempt : {S A : Type 0} → Interference S → Action S A → Action S A
unfolding transaction
attempt i body s = elim i.fault [
  | none ↦ transaction body (i.others s)
  | some e ↦ (err e, i.others s)
]

-- The `catch` of the loop: only a conflict goes on to the next attempt.
abbrev pub after_attempt :
    {S A : Type 0} → Result A × S → (Thrown → S → Result A × S) → Result A × S
after_attempt (ok a, s') next = (ok a, s')
after_attempt (err e, s') next = elim (is_serialization_conflict e) [
  | true ↦ next e s'
  | false ↦ (err e, s')
]

-- `for (let attempt = 0; attempt < maxAttempts; attempt++)`; the first argument is the number of
-- attempts left. The wait between two attempts changes nothing here.
unfoldable pub retry_loop : {S A : Type 0} → ℕ → ℕ → (ℕ → Action S A) → Thrown → Action S A
retry_loop zero tried operation last_error s = (err last_error, s)
retry_loop (suc left) tried operation last_error s =
    after_attempt (operation tried s) (λ e s'. retry_loop left (suc tried) operation e s')

-- `maxAttempts = 8`; `throw undefined` when no attempt is made.
unfoldable pub with_serializable_retry : {S A : Type 0} → (ℕ → Action S A) → Action S A
unfolding retry_loop
with_serializable_retry operation = retry_loop 8 0 operation (other "undefined")

abbrev pub is_unique_violation : Thrown → Bool
is_unique_violation (prisma_known code _ _) = str_eq code "P2002"
is_unique_violation _ = false

-- Look the key up on a clean connection; `later` is what others have committed by then.
unfoldable pub resolve_duplicate : (Books → Books) → String → Thrown → Action Books ℕ
unfolding str_eq
resolve_duplicate later key e b =
    let b' = later b in
    elim (is_unique_violation e) [
      | true ↦ elim (find_transaction key b'.transactions) [
        | some id ↦ (ok id, b')
        | none ↦ (err e, b')
      ]
      | false ↦ (err e, b')
    ]
