-- ===== src/Webhooks/SweepRules.antt =====
-- What a pass over the stale authorizations does (`sweepStaleAuthorizations` of
-- apps/api/src/webhooks/webhooks.service.ts), with the issuer's client of
-- apps/api/src/providers/lithic/lithic-card.provider.ts.
use tenzopay.Base.{
  ℕ, suc, ◌+◌, String, Option, none, some, List, [], ◌∷◌, All, ◌≡◌, refl, sym, ap, ◌∙◌, arith,
}
use tenzopay.Effects.{Result, ok, err, continue}
use tenzopay.Queries.{read}
use tenzopay.Actions.{IsPreorder}
use tenzopay.Ledger.CallSafety.{IsHonest}
use tenzopay.Asa.State.{CardTransaction, Desk}
use tenzopay.Asa.Sound.{IsSound}
use tenzopay.Webhooks.Sync.{sync_tokens, sync_card_transaction}
use tenzopay.Webhooks.Lithic.{LithicTransactionResponse, ProviderTransaction, get_transaction}
use tenzopay.Webhooks.Sweep.{
  Turn, Step, resolved, released, unresolved, Tally, count, stale, sweep_answer, sweep_each,
  length_of, start, sweep_stale_authorizations,
}

pub record Sound (s t : Desk) : Type 0 where
  pub sound : IsSound s → IsSound t

instance Sound-IsPreorder : IsPreorder Sound
Sound-IsPreorder = record {
  same = λ s. record { sound = λ v. v };
  chain = λ s t u p q. record { sound = λ v. q.sound (p.sound v) };
}

pub record IsHonestTurn (turn : Turn) : Type 0 where
  pub report : IsHonest turn.report.weather
  pub release : IsHonest turn.weather

module _ (turns : String → Turn) where
  -- The issuer knows the row.
  abbrev pub IsKnown : CardTransaction → Type 0
  IsKnown row =
      let token = row.provider_transaction_token in
      (p : ProviderTransaction) × ((turns token).get_transaction token ≡ ok (some p))

  known_row :
      (row : CardTransaction) (r : Result (Option ProviderTransaction)) (p : ProviderTransaction)
      (s : Desk)
      → r ≡ ok (some p)
      → sweep_answer (turns row.provider_transaction_token) row r s ≡ (ok resolved, s)
  unfolding sweep_answer sync_card_transaction sync_tokens
  known_row row r p s h = rw h refl

  each_known :
      (rows : List CardTransaction) (tally : Tally) (s : Desk)
      → All IsKnown rows
      → sweep_each turns rows tally s
        ≡ (ok (record tally { resolved = tally.resolved + length_of rows }), s)
  unfolding sweep_each
  each_known [] tally s known =
      let none_more : tally.resolved + 0 ≡ tally.resolved = omega arith in rw none_more refl
  each_known (row ∷ rows) tally s known =
      let (p, h) = known.0 in
      let turn = known_row row _ p s h in
      let more : tally.resolved + suc (length_of rows) ≡ suc tally.resolved + length_of rows =
        omega arith in
      ap (continue (λ step. sweep_each turns rows (count step tally))) turn
      ∙ each_known rows (count resolved tally) s known.1
      ∙ ap (λ n. (ok (record tally { resolved = n }), s)) (sym more)

  -- A pass whose query works and whose stale rows are all known to the issuer counts them all as resolved
  -- and changes nothing: no hold is settled or released, whatever the issuer reports of them.
  pub sweep_known :
      (now hours : ℕ) (s : Desk)
      → All IsKnown (stale now hours 200 s.transactions)
      → sweep_stale_authorizations none turns now hours s ≡ (
        ok (record (start (stale now hours 200 s.transactions)) {
          resolved = length_of (stale now hours 200 s.transactions);
        }),
        s,
      )
  unfolding sweep_stale_authorizations read
  sweep_known now hours s known =
      let rows = stale now hours 200 s.transactions in
      let whole : 0 + length_of rows ≡ length_of rows = omega arith in
      each_known rows (start rows) s known
      ∙ ap (λ n. (ok (record (start rows) { resolved = n }), s)) whole

-- The turns of a pass behind the issuer's client, which answers a request as `client` says.
abbrev pub lithic_turns :
    (String → Result LithicTransactionResponse) → (String → Turn) → String → Turn
lithic_turns client turns token = record (turns token) {
  get_transaction = λ t. get_transaction (client t);
}

-- Whether a result leaves the count of the unresolved rows where it was.
abbrev pub IsAt : ℕ → Result Tally × Desk → Type 0
IsAt n (ok tally, t) = tally.unresolved ≡ n
IsAt n (err e, t) = Unit {0}

abbrev IsDone : Step → Type 0
IsDone unresolved = ⊥
IsDone resolved = Unit {0}
IsDone released = Unit {0}

abbrev EndsDone : Result Step × Desk → Type 0
EndsDone (ok step, t) = IsDone step
EndsDone (err e, t) = Unit {0}
