-- ===== src/Deposits/Liveness.antt =====
-- A deposit that is deep enough is credited (`advanceConfirmations` of
-- apps/api/src/deposits/deposits.service.ts).
use tenzopay.Base.{
  ℕ, ◌≤◌, ltb, pos, ◌≤ℤ◌, ◌<ℤ◌, String, none, some, true, false, length, ◌≡◌, refl, sym, ap, subst,
  ◌∙◌, arith, List, Option,
}
use tenzopay.Effects.{Result, ok, continue}
use tenzopay.Queries.{read_works, write_works, with_result_works, write_quietly-P}
use tenzopay.Ledger.Books.{Books, find_transaction}
use tenzopay.Ledger.Invariant.{IsValid}
use tenzopay.Ledger.Methods.{credit_deposit}
use tenzopay.Ledger.Wallet.{wallet_of, deposited, spend, perform, key_of}
use tenzopay.Ledger.Calm.{IsCalm, once_calm}
use tenzopay.Ledger.Refinement.{perform-refines-spend}
use tenzopay.Fees.Rates.{DepositRates, deposit_fee}
use tenzopay.Deposits.State
use tenzopay.Deposits.State.{
  Deposit, Vault, Run, find_deposit, update_deposit, with_deposits, on_books, Notification,
}
use tenzopay.Deposits.Advance.{
  is_final, is_credited, notify_user, confirmed_row, confirm, credit_net, credit_row, credit,
  observe, advance_row, advance_confirmations, confirmed_in,
}
use tenzopay.Deposits.Sound.{confirm_key}
use tenzopay.Deposits.Carries.{found_here}

-- A deposit that can be credited: it is watched, the node counts enough confirmations for it, the
-- rates are there and leave something of it, it is not posted yet, and the queries work.
pub record IsDue (run : Run) (rates : DepositRates) (n : ℕ) (hash : String) (d : Deposit)
    (s : Vault) : Type 0 where
  pub found : find_deposit d.id s.deposits ≡ some d
  pub hashed : d.tx_hash ≡ some hash
  pub live : is_final d.status ≡ false
  pub unlinked : d.ledger_transaction_id ≡ none
  pub seen : run.confirmations hash ≡ ok (some n)
  pub deep : d.required_confirmations ≤ n
  pub priced : run.rates ≡ ok rates
  pub fee_kept : pos 0 ≤ℤ deposit_fee rates d.amount
  pub fee_less : deposit_fee rates d.amount <ℤ d.amount
  pub unposted : find_transaction (confirm_key d.id) s.books.transactions ≡ none
  pub row_query : run.fault State.find_row ≡ none
  pub credit_query : run.fault State.find_uncredited ≡ none
  pub mark_query : run.fault State.mark_confirmed ≡ none
  pub calm : IsCalm run.weather s.books

not_credited :
    (d : Deposit)
    → is_final d.status ≡ false
    → d.ledger_transaction_id ≡ none
    → is_credited d ≡ false
not_credited d live unlinked = rw unlinked (ground (arith, live))

watched_row :
    (run : Run) (d : Deposit) (s : Vault) (hash : String)
    → d.tx_hash ≡ some hash
    → is_final d.status ≡ false
    → advance_row run (some d) s ≡ observe run d (run.confirmations hash) s
unfolding advance_row
watched_row run d s hash h live = ground (arith, h, live)

deep_row :
    (run : Run) (d : Deposit) (s : Vault) (answer : Result (Option ℕ)) (n : ℕ)
    → answer ≡ ok (some n)
    → d.required_confirmations ≤ n
    → observe run d answer s ≡ credit run d.id n s
unfolding observe
deep_row run d s answer n h deep =
    let enough : ltb n d.required_confirmations ≡ false = ground arith in
    rw h (rw (enough, observe) refl)

fresh_row :
    (run : Run) (n : ℕ) (d : Deposit) (s : Vault) (rates : DepositRates)
    → is_credited d ≡ false
    → run.rates ≡ ok rates
    → credit_row run n (some d) s ≡ credit_net run n d rates s
unfolding credit_row
fresh_row run n d s rates h priced =
    rw (h, credit_row) (with_result_works run.rates (credit_net run n d) rates s priced)

module _ (run : Run) (rates : DepositRates) (n : ℕ) (hash : String) (d : Deposit) (s : Vault)
    (due : IsDue run rates n hash d s) (v : IsValid s.books) where
  -- The method comes to the call of the ledger.
  advance_credits :
      advance_confirmations run d.id s
      ≡ continue (confirm run n d) (
          on_books
            (credit_deposit run.weather d.user_id d.id d.amount
              (deposit_fee rates d.amount)
              d.currency
              s.books)
            s)
  unfolding advance_confirmations credit credit_net
  advance_credits =
      read_works (run.fault State.find_row) _ (advance_row run) s due.row_query
      ∙ ap (λ o. advance_row run o s) due.found
      ∙ watched_row run d s hash due.hashed due.live
      ∙ deep_row run d s (run.confirmations hash) n due.seen due.deep
      ∙ read_works (run.fault State.find_uncredited) _ (credit_row run n) s due.credit_query
      ∙ ap (λ o. credit_row run n o s) due.found
      ∙ fresh_row run n d s rates (not_credited d due.live due.unlinked) due.priced

  module _ (b : Books)
      (e : credit_deposit run.weather d.user_id d.id d.amount
          (deposit_fee rates d.amount)
          d.currency
          s.books
        ≡ (ok (length s.books.transactions), b)) where
    -- What the credited deposit leaves.
    credited_state :
        (P : Result (Unit {0}) × Vault → Type 0)
        → ((notes : List Notification)
            → P (
              ok tt,
              record s {
                books = b;
                deposits =
                    update_deposit d.id
                      (confirmed_row run n (length s.books.transactions))
                      s.deposits;
                notifications = notes;
              },
            ))
        → P (advance_confirmations run d.id s)
    unfolding confirm notify_user
    credited_state P p =
        let id = length s.books.transactions in
        let f = with_deposits (update_deposit d.id (confirmed_row run n id)) in
        let s' : Vault = record s { books = b } in
        subst P
          (sym (
            advance_credits
            ∙ ap (λ r. continue (confirm run n d) (on_books r s)) e
            ∙ write_works (run.fault State.mark_confirmed) f
                (λ u. notify_user run d.user_id State.deposit_confirmed d.id) s' due.mark_query))
          (write_quietly-P P (run.fault State.notify) _ (f s') (p s.notifications) (p _))

-- A watched deposit at its required depth is credited by one run, where nobody interferes, its queries
-- work and the fee is less than the deposit: the run returns, the deposit is CONFIRMED, its credit is
-- posted, and the user's wallet has gained the amount less the fee.
pub advance_confirmations-Credits :
    (run : Run) (rates : DepositRates) (n : ℕ) (hash : String) (d : Deposit) (s : Vault)
    → IsDue run rates n hash d s
    → IsValid s.books
    → let fee = deposit_fee rates d.amount in
      let r = advance_confirmations run d.id s in
      (r.0 ≡ ok tt)
      × (confirmed_in (find_deposit d.id r.1.deposits) ≡ true)
      × (find_transaction (confirm_key d.id) r.1.books.transactions
          ≡ some (length s.books.transactions))
      × (wallet_of d.user_id d.currency r.1.books
          ≡ spend (deposited d.id d.amount fee) (wallet_of d.user_id d.currency s.books))
unfolding perform key_of credit_deposit
advance_confirmations-Credits run rates n hash d s due v =
    let fee = deposit_fee rates d.amount in
    let (b, e, valid, posted, gained) =
      perform-refines-spend d.user_id d.currency s.books v (deposited d.id d.amount fee)
        (due.fee_kept, due.fee_less) due.unposted in
    let called = once_calm run.weather (confirm_key d.id) _ s.books b _ due.calm e in
    credited_state run rates n hash d s due v b called
      (λ r.
        (r.0 ≡ ok tt)
        × (confirmed_in (find_deposit d.id r.1.deposits) ≡ true)
        × (find_transaction (confirm_key d.id) r.1.books.transactions
            ≡ some (length s.books.transactions))
        × (wallet_of d.user_id d.currency r.1.books
            ≡ spend (deposited d.id d.amount fee) (wallet_of d.user_id d.currency s.books)))
      (λ notes. (
        refl,
        rw
            (found_here d.id (confirmed_row run n (length s.books.transactions)) s.deposits d
              due.found (λ x. refl))
            refl,
        posted,
        gained,
      ))
