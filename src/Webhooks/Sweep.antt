-- ===== src/Webhooks/Sweep.antt =====
-- `sweepStaleAuthorizations` of apps/api/src/webhooks/webhooks.service.ts. A row has its token for an id:
-- both are unique.
use tenzopay.Base.{
  ℕ, zero, suc, ◌+◌, ◌*◌, ltb, ℤ, pos, ◌+ℤ◌, ◌*ℤ◌, String, ◌<>◌, Option, none, some, Bool, false,
  ◌&&◌, if◌then◌else◌, List, [], ◌∷◌,
}
use tenzopay.Effects.{Thrown, Result, ok, err, Action, pure, ◌>>=◌, ◌>>◌}
use tenzopay.Queries.{read, write}
use tenzopay.Ledger.Methods.{Weather, release_hold}
use tenzopay.Asa.State.{
  CardTransactionStatus, pending, settled, declined, reversed, expired, refunded, CardTransaction,
  Desk,
}
use tenzopay.Asa.Decide.{on_books}
use tenzopay.Webhooks.Rows.{Report, Run, status_eq, update_row}
use tenzopay.Webhooks.Sync.{sync_card_transaction}
use tenzopay.Webhooks.Lithic.{ProviderTransaction}

-- What the turn of one row meets: the issuer's answer, the run of a report, and the run of a release.
pub record Turn : Type 0 where
  pub get_transaction : String → Result (Option ProviderTransaction)
  pub report : Run
  pub weather : Weather
  pub mark_fault : Option Thrown

abbrev pub status_text : CardTransactionStatus → String
status_text pending = "PENDING"
status_text settled = "SETTLED"
status_text declined = "DECLINED"
status_text reversed = "REVERSED"
status_text expired = "EXPIRED"
status_text refunded = "REFUNDED"

-- `providerState as unknown as Record<string, unknown>`: what the report's fields are on this object, whose
-- own are `transactionToken`, `cardToken`, `status`, `amount` and `settledAmount`.
abbrev pub as_report : ProviderTransaction → Report
as_report p = record {
  token = none;
  card_token = none;
  status = status_text p.status;
  hold_amount = none;
  cardholder_amount = none;
  cardholder_currency = none;
  settlement_amount = none;
}

pub data Step : Type 0 where
  resolved released unresolved : Step

pub record Tally : Type 0 where
  pub checked : ℕ
  pub resolved : ℕ
  pub released : ℕ
  pub unresolved : ℕ

abbrev pub count : Step → Tally → Tally
count resolved t = record t { resolved = suc t.resolved }
count released t = record t { released = suc t.released }
count unresolved t = record t { unresolved = suc t.unresolved }

-- Pending, and authorized before the cutoff.
abbrev pub is_stale : ℕ → ℕ → CardTransaction → Bool
is_stale now hours t =
    status_eq t.status pending
    && elim t.authorized_at [ none ↦ false | some time ↦ ltb (time + hours * 3600000) now ]

-- `findMany`, with its `take`.
unfoldable pub stale : ℕ → ℕ → ℕ → List CardTransaction → List CardTransaction
stale now hours zero rows = []
stale now hours (suc limit) [] = []
stale now hours (suc limit) (t ∷ rows) =
    let more = stale now hours limit rows in
    let others = stale now hours (suc limit) rows in
    if is_stale now hours t then t ∷ more else others

abbrev pub held_usdt : CardTransaction → ℤ
held_usdt row = row.amount *ℤ pos 10000 +ℤ row.fee_amount

unfoldable pub release_stale_hold : Turn → CardTransaction → Action Desk ℕ
release_stale_hold turn row s =
    on_books
      (release_hold turn.weather row.user_id ("release:stale:" <> row.provider_transaction_token)
        (held_usdt row) "USDT" s.books)
      s

abbrev pub mark_expired : String → Desk → Desk
mark_expired token s = record s {
  transactions = update_row token (λ t. record t { status = expired }) s.transactions;
}

unfoldable pub release_stale : Turn → CardTransaction → Action Desk Step
release_stale turn row =
    release_stale_hold turn row
    >> write turn.mark_fault (mark_expired row.provider_transaction_token)
    >> pure released

unfoldable pub sweep_answer :
    Turn → CardTransaction → Result (Option ProviderTransaction) → Action Desk Step
sweep_answer turn row (err e) = pure unresolved
sweep_answer turn row (ok (some p)) =
    sync_card_transaction turn.report (as_report p) >> pure resolved
sweep_answer turn row (ok none) = release_stale turn row

abbrev pub sweep_row : Turn → CardTransaction → Action Desk Step
sweep_row turn row = sweep_answer turn row (turn.get_transaction row.provider_transaction_token)

-- The loop: what a turn throws ends it.
unfoldable pub sweep_each : (String → Turn) → List CardTransaction → Tally → Action Desk Tally
sweep_each turns [] tally = pure tally
sweep_each turns (row ∷ rows) tally =
    sweep_row (turns row.provider_transaction_token) row >>= λ step.
    sweep_each turns rows (count step tally)

abbrev pub length_of : List CardTransaction → ℕ
length_of [] = 0
length_of (t ∷ rows) = suc (length_of rows)

abbrev pub start : List CardTransaction → Tally
start rows = record { checked = length_of rows; resolved = 0; released = 0; unresolved = 0 }

unfoldable pub sweep_stale_authorizations :
    Option Thrown → (String → Turn) → ℕ → ℕ → Action Desk Tally
sweep_stale_authorizations fault turns now hours =
    read fault (λ (s : Desk). stale now hours 200 s.transactions) >>= λ rows.
    sweep_each turns rows (start rows)
