-- ===== src/Billing/Turns.antt =====
-- A turn of `chargeDuePlans` (apps/api/src/billing/billing.service.ts) for an account that owes, where nobody
-- interferes and the queries work.
use tenzopay.Base.{
  ℕ, ℤ, pos, leb_ℤ, ◌≤ℤ◌, ◌<ℤ◌, none, some, true, false, Bool, if◌then◌else◌, length, ◌≡◌, refl, ap,
  ◌∙◌, arith,
}
use tenzopay.Effects.{insufficient_balance, ok, err, continue, after_catch, try_catch, pure, ◌>>◌}
use tenzopay.Queries.{read_works}
use tenzopay.Ledger.Books
use tenzopay.Ledger.Books.{Books, find_transaction}
use tenzopay.Ledger.Movements.{available_of, charge_fee_body}
use tenzopay.Ledger.Invariant.{IsValid}
use tenzopay.Ledger.View.{balance_at}
use tenzopay.Ledger.Methods.{charge_fee}
use tenzopay.Ledger.Wallet.{wallet_of, charged, spend, perform, key_of}
use tenzopay.Ledger.Refinement.{perform-refines-spend}
use tenzopay.Ledger.Charges.{charge_fee_body_refused}
use tenzopay.Ledger.Calm.{IsCalm, charge_fee_calm, charge_fee_short}
use tenzopay.Billing.State
use tenzopay.Billing.State.{User, Firm, Turn, Instant, update_user, with_users, on_books}
use tenzopay.Billing.Charge.{
  Step, retried, downgraded, skipped, period, fee_key, price_for, days_failing, since_or, is_dunned,
  tell, set_dunning, to_starter, settle_dunning, take_fee, pay, drop_plan, keep_trying, unpaid,
  collect, charge_priced, charge_account,
}
use tenzopay.Billing.Charge
use tenzopay.Billing.Works.{
  Works, then-Works, tell-Works, pure-Works, settle_dunning-Works, drop_plan-Works,
  keep_trying-Works,
}

-- An account that owes: its price is known and positive, the fee of the month is not posted, and nobody
-- interferes with the turn.
pub record IsOwing (turn : Turn) (now : Instant) (u : User) (price : ℤ) (s : Firm) : Type 0 where
  pub priced : price_for turn u.plan s ≡ (ok price, s)
  pub positive : pos 0 <ℤ price
  pub unposted : find_transaction (fee_key u.id (period now)) s.books.transactions ≡ none
  pub existing_query : turn.fault State.find_existing ≡ none
  pub clear_query : turn.fault State.clear_dunning ≡ none
  pub drop_query : turn.fault State.downgrade ≡ none
  pub log_query : turn.fault State.log_downgrade ≡ none
  pub start_query : turn.fault State.start_dunning ≡ none
  pub calm : IsCalm turn.weather s.books

pair_of : {A B : Type 0} (p : A × B) (a : A) → p.0 ≡ a → p ≡ (a, p.1)
pair_of (x, y) a h = ap (λ z. (z, y)) h

is_charge : (price : ℤ) → pos 0 <ℤ price → leb_ℤ price (pos 0) ≡ false
is_charge price h = ground arith

module _ (turn : Turn) (now : Instant) (days : ℤ) (u : User) (price : ℤ) (s : Firm)
    (owing : IsOwing turn now u price s) where
  -- The turn comes to the attempt to pay.
  tries :
      charge_account turn now days u s
      ≡ after_catch (unpaid turn now.time days u) (pay turn (period now) price u s)
  unfolding charge_account charge_priced collect try_catch
  tries =
      let free : leb_ℤ price (pos 0) ≡ false = is_charge price owing.positive in
      ap (continue (charge_priced turn now days u)) owing.priced
      ∙ rw (free, charge_priced)
          (read_works (turn.fault State.find_existing) _ (collect turn now days u price) s
              owing.existing_query
            ∙ ap (λ o. collect turn now days u price o s) owing.unposted)

  after_payment :
      Works Charge.charged
        (settle_dunning turn u >> tell turn u.id "Plan fee charged" >> pure Charge.charged)
  after_payment =
      then-Works tt Charge.charged _ _
        (then-Works tt tt _ _ (settle_dunning-Works turn u owing.clear_query)
          (tell-Works turn u.id _))
        (pure-Works Charge.charged)

  -- A call of the ledger that charges.
  paid :
      (n : ℕ) (b : Books)
      → charge_fee turn.weather u.id (fee_key u.id (period now)) price Books.monthly "USDT" s.books
        ≡ (ok n, b)
      → (t : Firm) × (charge_account turn now days u s ≡ (ok Charge.charged, t)) × (t.books ≡ b)
  unfolding pay take_fee
  paid n b h =
      let (t, e, same) = after_payment.runs (record s { books = b }) in
      (
        t,
        tries
            ∙ ap
                (λ r. after_catch (unpaid turn now.time days u) (
                  continue (λ x. pure Charge.charged)
                    (continue (λ x. tell turn u.id "Plan fee charged")
                      (continue (λ x. settle_dunning turn u) (on_books r s)))))
                h
            ∙ ap (after_catch (unpaid turn now.time days u)) e,
        same,
      )

  -- A call of the ledger that is refused.
  refused :
      (x y : ℤ)
      → charge_fee turn.weather u.id (fee_key u.id (period now)) price Books.monthly "USDT" s.books
        ≡ (err (insufficient_balance x y), s.books)
      → charge_account turn now days u s
        ≡ (if leb_ℤ days (days_failing now.time (since_or now.time u.plan_dunning_since))
              then drop_plan turn u
              else keep_trying turn now.time u)
            s
  unfolding pay take_fee
  refused x y h =
      tries
      ∙ ap
          (λ r. after_catch (unpaid turn now.time days u) (
            continue (λ z. pure Charge.charged)
              (continue (λ z. tell turn u.id "Plan fee charged")
                (continue (λ z. settle_dunning turn u) (on_books r s)))))
          h

  choice :
      (b : Bool)
      → Works
          (if b then downgraded else retried)
          (if b then drop_plan turn u else keep_trying turn now.time u)
  choice true = drop_plan-Works turn u owing.drop_query owing.log_query
  choice false = keep_trying-Works turn u now.time owing.start_query

-- An account that owes and whose balance covers the price, where nobody interferes and the queries work,
-- pays in its turn: the turn counts as charged, the fee of the month is posted, and the wallet has
-- lost the price.
pub charge_account-Pays :
    (turn : Turn) (now : Instant) (days : ℤ) (u : User) (price : ℤ) (s : Firm)
    → IsOwing turn now u price s
    → IsValid s.books
    → price ≤ℤ (wallet_of u.id "USDT" s.books).available
    → let r = charge_account turn now days u s in
      (r.0 ≡ ok Charge.charged)
      × (find_transaction (fee_key u.id (period now)) r.1.books.transactions
          ≡ some (length s.books.transactions))
      × (wallet_of u.id "USDT" r.1.books
          ≡ spend
              (charged (fee_key u.id (period now)) price Books.monthly)
              (wallet_of u.id "USDT" s.books))
unfolding perform key_of
charge_account-Pays turn now days u price s owing v covered =
    let key = fee_key u.id (period now) in
    let (b, e, valid, posted, spent) =
      perform-refines-spend u.id "USDT" s.books v (charged key price Books.monthly)
        (owing.positive, covered) owing.unposted in
    let h =
      charge_fee_calm turn.weather u.id key price Books.monthly "USDT" s.books owing.calm
        (is_charge price owing.positive) (length s.books.transactions) b e in
    let (t, r, same) = paid turn now days u price s owing (length s.books.transactions) b h in
    rw (r, same) (refl, posted, spent)

-- An account that owes and whose balance does not cover the price, where nobody interferes and the
-- queries work, goes into no debt: the ledger is as before, and the turn counts as downgraded when the
-- dunning has lasted the days of grace, and as retried before that.
pub charge_account-Unpaid :
    (turn : Turn) (now : Instant) (days : ℤ) (u : User) (price : ℤ) (s : Firm)
    → IsOwing turn now u price s
    → IsValid s.books
    → (wallet_of u.id "USDT" s.books).available <ℤ price
    → let r = charge_account turn now days u s in
      (r.0
        ≡ ok (
            if leb_ℤ days (days_failing now.time (since_or now.time u.plan_dunning_since))
            then downgraded
            else retried))
      × (r.1.books ≡ s.books)
charge_account-Unpaid turn now days u price s owing v short =
    let key = fee_key u.id (period now) in
    let available = balance_at (available_of u.id "USDT") s.books in
    let body = charge_fee_body u.id key price Books.monthly "USDT" s.books in
    let e : body ≡ (err (insufficient_balance available price), body.1) = pair_of body _ (
      charge_fee_body_refused u.id key price Books.monthly "USDT" s.books v owing.unposted short) in
    let h =
      charge_fee_short turn.weather u.id key price Books.monthly "USDT" s.books owing.calm
        (is_charge price owing.positive) available price body.1 e in
    let (t, r, same) =
      (choice turn now days u price s owing
          (leb_ℤ days (days_failing now.time (since_or now.time u.plan_dunning_since)))).runs
        s in
    rw (refused turn now days u price s owing available price h, r) (refl, same)
