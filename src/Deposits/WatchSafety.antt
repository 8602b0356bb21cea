-- ===== src/Deposits/WatchSafety.antt =====
-- The watch for reorganisations (`watchCreditedForReorg` of apps/api/src/deposits/deposits.service.ts)
-- keeps the invariant and every row.
use tenzopay.Base.{
  ℕ, ℤ, String, Option, none, some, false, inr, List, [], ◌∷◌, ◌≡◌, refl, pos, ◌≤◌, arith,
}
use tenzopay.Effects.{Thrown, Result, ok, err, continue}
use tenzopay.Ledger.Books.{Books, find_transaction}
use tenzopay.Ledger.CallSafety.{IsHonest, Final}
use tenzopay.Ledger.ExactlyOnce.{reverse_deposit-Final}
use tenzopay.Deposits.State
use tenzopay.Deposits.State.{
  Config, DepositStatus, Deposit, Vault, Run, update_deposit, with_deposits, on_books,
}
use tenzopay.Deposits.Advance.{orphaned_row}
use tenzopay.Deposits.Watch.{
  read_fee, mark_reversed, reverse_net, watch_answer, watch_each, watch_credited_for_reorg,
}
use tenzopay.Deposits.Sound.{IsBacked, IsSound, update-All, on_books-IsSound, reverse_key}
use tenzopay.Deposits.Kept.{Leaves}
use tenzopay.Actions.{IsKept, read-IsKept, bind-IsKept, pure-IsKept, if-IsKept}
use tenzopay.Deposits.Carries.{IsStep, IsStep-IsPreorder, Carries-refl, update-Carries, stage}
use tenzopay.Deposits.Forward.{Moves}
use tenzopay.Queries.{write-P}

stage_le : (status : DepositStatus) → stage status ≤ 4
stage_le status = ground arith

read_fee-IsKept : (run : Run) (id : Option ℕ) → IsKept IsStep (read_fee run id)
unfolding read_fee
read_fee-IsKept run none = pure-IsKept (pos 0)
read_fee-IsKept run (some id) = read-IsKept _ _

module _ (run : Run) (honest : IsHonest run.weather) (d : Deposit) where
  -- The row of a deposit may be orphaned once the reversal is posted.
  mark_reversed-Leaves :
      (n : ℕ) (s : Vault)
      → IsSound s
      → find_transaction (reverse_key d.id) s.books.transactions ≡ some n
      → Leaves (mark_reversed run d n s)
  unfolding mark_reversed
  mark_reversed-Leaves n s v reversed =
      let backed =
        update-All (IsBacked s.books) d.id orphaned_row s.deposits
          (λ x same u. record {
            posted = u.posted;
            credited = λ h. cc (h);
            standing = λ t h. inr (refl, (n, rw same reversed));
          })
          v.backed in
      write-P (λ r. Leaves r) s (run.fault State.mark_orphaned) _ _ (λ e. v)
        (record { valid = v.valid; backed = backed })

  reversed-Leaves :
      (s : Vault) (r : Result ℕ × Books)
      → IsSound s
      → Final run.weather s.books (reverse_key d.id) (λ k. k) r
      → Leaves (continue (mark_reversed run d) (on_books r s))
  reversed-Leaves s (ok id, b) v g =
      mark_reversed-Leaves id (record s { books = b })
        (on_books-IsSound run.weather honest s v (reverse_key d.id) (λ k. k) (ok id, b) g) g.posted
  reversed-Leaves s (err e, b) v g =
      on_books-IsSound run.weather honest s v (reverse_key d.id) (λ k. k) (err e, b) g

  mark_reversed-Moves : (n : ℕ) (s : Vault) → Moves s (mark_reversed run d n s)
  unfolding mark_reversed
  mark_reversed-Moves n s =
      write-P (λ r. Moves s r) s (run.fault State.mark_orphaned) _ _ (λ e. Carries-refl s.deposits)
        (update-Carries d.id orphaned_row s.deposits (λ x. refl)
          (λ x h. record {
            id = refl;
            user_id = refl;
            amount = refl;
            currency = refl;
            forward = stage_le (x.status);
          }))

  reversed-Moves :
      (s : Vault) (r : Result ℕ × Books) → Moves s (continue (mark_reversed run d) (on_books r s))
  reversed-Moves s (ok id, b) = mark_reversed-Moves id (record s { books = b })
  reversed-Moves s (err e, b) = Carries-refl s.deposits

  reverse_net-IsKept : (fee : ℤ) → IsKept IsStep (reverse_net run d fee)
  unfolding reverse_net
  reverse_net-IsKept fee = record {
    leaves = λ s. record {
      sound = λ v. reversed-Leaves s _ v (
          reverse_deposit-Final run.weather honest s.books v.valid d.user_id d.id d.amount fee
            d.currency);
      carries = reversed-Moves s _;
    };
  }

  watch_answer-IsKept : (answer : Result (Option ℕ)) → IsKept IsStep (watch_answer run d answer)
  unfolding watch_answer
  watch_answer-IsKept (err e) = pure-IsKept false
  watch_answer-IsKept (ok (some n)) = pure-IsKept false
  watch_answer-IsKept (ok none) =
      bind-IsKept _ _ (read_fee-IsKept run d.ledger_transaction_id) reverse_net-IsKept

watch_each-IsKept :
    (runs : String → Run)
    → ((id : String) → IsHonest (runs id).weather)
    → (ds : List Deposit) (n : ℕ) → IsKept IsStep (watch_each runs ds n)
unfolding watch_each
watch_each-IsKept runs honest [] n = pure-IsKept n
watch_each-IsKept runs honest (d ∷ ds) n =
    bind-IsKept _ _ (watch_answer-IsKept (runs d.id) (honest d.id) d _)
      (λ done. watch_each-IsKept runs honest ds _)

pub watch_credited-IsKept :
    (config : Config) (now hours : ℕ) (fault : Option Thrown) (runs : String → Run)
    → ((id : String) → IsHonest (runs id).weather)
    → IsKept IsStep (watch_credited_for_reorg config now hours fault runs)
unfolding watch_credited_for_reorg
watch_credited-IsKept config now hours fault runs honest =
    if-IsKept _ _ config.is_demo (pure-IsKept _) (
      bind-IsKept _ _ (read-IsKept _ _) (λ credited.
        bind-IsKept _ _ (watch_each-IsKept runs honest credited 0) (λ n. pure-IsKept _)))
