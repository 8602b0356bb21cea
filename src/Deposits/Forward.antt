-- ===== src/Deposits/Forward.antt =====
-- `advanceConfirmations` of apps/api/src/deposits/deposits.service.ts moves a deposit forward only.
use tenzopay.Base.{
  ℕ, ◌-◌, ◌≤◌, ltb, String, Option, Option-cases, none, some, false, Bool-cases, inl, inr, List, [],
  ◌∷◌, All, ◌≡◌, ◌∙◌, refl, sym, subst, arith,
}
use tenzopay.Effects.{Thrown, Result, ok, err, continue}
use tenzopay.Queries.{write, write_quietly, read-P, write-P, with_result-P}
use tenzopay.Actions.{IsKept}
use tenzopay.Ledger.Books.{Books}
use tenzopay.Ledger.CallSafety.{IsHonest}
use tenzopay.Deposits.State
use tenzopay.Deposits.State.{
  DepositStatus, Deposit, NotificationType, Vault, Run, find_deposit, update_deposit, with_deposits,
  on_books,
}
use tenzopay.Deposits.Advance.{
  is_final, is_credited, notify_user, confirmed_row, confirm, credit_net, credit_row, credit,
  ten_minutes, orphaned_row, confirming_row, observe, advance_row, advance_confirmations,
}
use tenzopay.Deposits.Sound.{found-All}
use tenzopay.Deposits.Carries.{stage, Successor, Carries, Carries-refl, update-Carries, IsStep}
use tenzopay.Deposits.Kept.{advance_confirmations-Leaves}

-- The rows are carried by what the method leaves.
abbrev pub Moves : {A : Type 0} → Vault → Result A × Vault → Type 0
Moves s r = Carries s.deposits r.1.deposits

stage_of_live : (status : DepositStatus) → is_final status ≡ false → stage status ≤ 2
stage_of_live status h = ground arith

some_row : {d e : Deposit} → some d ≡ some e → d ≡ e
some_row h = cc (h)

no_facts : (ds : List Deposit) → All (λ x. Unit {0}) ds
no_facts [] = tt
no_facts (d ∷ ds) = (tt, no_facts ds)

quietly :
    (fault : Option Thrown) (f : Vault → Vault) (s t : Vault)
    → Carries s.deposits t.deposits
    → Carries s.deposits (f t).deposits
    → Moves s (write_quietly fault f t)
unfolding write_quietly
quietly none f s t c m = m
quietly (some e) f s t c m = c

pub same_id :
    (ds : List Deposit) (id : String) (d : Deposit) → find_deposit id ds ≡ some d → d.id ≡ id
same_id ds id d h = (found-All (λ x. Unit {0}) id ds d (no_facts ds) h).1

module _ (run : Run) where
  notified :
      (user : String) (type : NotificationType) (id : String) (s t : Vault)
      → Carries s.deposits t.deposits
      → Moves s (notify_user run user type id t)
  unfolding notify_user
  notified user type id s t c = quietly (run.fault State.notify) _ s t c c

  module _ (d : Deposit) (live : is_final d.status ≡ false) where
    moved :
        (f : Deposit → Deposit) (s : Vault)
        → find_deposit d.id s.deposits ≡ some d
        → ((x : Deposit) → (f x).id ≡ x.id)
        → Successor d (f d)
        → Carries s.deposits (update_deposit d.id f s.deposits)
    moved f s h keeps p =
        update-Carries d.id f s.deposits keeps
          (λ x g. subst (λ y. Successor y (f y)) (some_row (sym h ∙ g)) p)

    confirm-Moves :
        (n id : ℕ) (s : Vault)
        → find_deposit d.id s.deposits ≡ some d
        → Moves s (confirm run n d id s)
    unfolding confirm
    confirm-Moves n id s h =
        write-P (λ r. Moves s r) s (run.fault State.mark_confirmed) _ _
          (λ e. Carries-refl s.deposits)
          (notified d.user_id State.deposit_confirmed d.id s _ (
            moved (confirmed_row run n id) s h (λ x. refl)
              (record {
                id = refl;
                user_id = refl;
                amount = refl;
                currency = refl;
                forward = omega (arith, stage_of_live d.status live);
              })))

    credited-Moves :
        (n : ℕ) (s : Vault) (r : Result ℕ × Books)
        → find_deposit d.id s.deposits ≡ some d
        → Moves s (continue (confirm run n d) (on_books r s))
    credited-Moves n s (ok id, b) h = confirm-Moves n id (record s { books = b }) h
    credited-Moves n s (err e, b) h = Carries-refl s.deposits

    credit_row-Moves :
        (n : ℕ) (s : Vault)
        → find_deposit d.id s.deposits ≡ some d
        → Moves s (credit_row run n (some d) s)
    unfolding credit_row credit_net
    credit_row-Moves n s h = elim (Bool-cases (is_credited d)) [
      | inl done ↦ rw (done, credit_row) (Carries-refl s.deposits)
      | inr open_yet ↦
          rw (open_yet, credit_row)
            (with_result-P (λ r. Moves s r) s run.rates (credit_net run n d)
              (λ e. Carries-refl s.deposits) (λ rates g. credited-Moves n s _ h))
    ]

    credit-Moves :
        (n : ℕ) (s : Vault) → find_deposit d.id s.deposits ≡ some d → Moves s (credit run d.id n s)
    unfolding credit
    credit-Moves n s h =
        read-P (λ r. Moves s r) s (run.fault State.find_uncredited) _ _
          (λ e. Carries-refl s.deposits) (rw h (credit_row-Moves n s h))

    written-Moves :
        (f : Deposit → Deposit) (fault : Option Thrown) (s : Vault)
        → Carries s.deposits (update_deposit d.id f s.deposits)
        → Moves s (write fault (with_deposits (update_deposit d.id f)) s)
    unfolding write
    written-Moves f none s m = m
    written-Moves f (some e) s m = Carries-refl s.deposits

    forward_to :
        (f : Deposit → Deposit) (s : Vault)
        → find_deposit d.id s.deposits ≡ some d
        → ((x : Deposit) → (f x).id ≡ x.id)
        → Successor d (f d)
        → Moves s (write (run.fault State.update_row) (with_deposits (update_deposit d.id f)) s)
    forward_to f s h keeps p = written-Moves f (run.fault State.update_row) s (moved f s h keeps p)

    observe-Moves :
        (answer : Result (Option ℕ)) (s : Vault)
        → find_deposit d.id s.deposits ≡ some d
        → Moves s (observe run d answer s)
    unfolding observe
    observe-Moves (err e) s h = Carries-refl s.deposits
    observe-Moves (ok none) s h = elim (Bool-cases (ltb ten_minutes (run.now - d.created_at))) [
      | inl old ↦
          rw (old, observe)
            (forward_to orphaned_row s h (λ x. refl)
              (record {
                id = refl;
                user_id = refl;
                amount = refl;
                currency = refl;
                forward = omega (arith, stage_of_live d.status live);
              }))
      | inr young ↦ rw (young, observe) (Carries-refl s.deposits)
    ]
    observe-Moves (ok (some n)) s h = elim (Bool-cases (ltb n d.required_confirmations)) [
      | inl few ↦
          rw (few, observe)
            (forward_to (confirming_row n) s h (λ x. refl)
              (record {
                id = refl;
                user_id = refl;
                amount = refl;
                currency = refl;
                forward = stage_of_live d.status live;
              }))
      | inr enough ↦ rw (enough, observe) (credit-Moves n s h)
    ]

  advance_row-Moves :
      (id : String) (row : Option Deposit) (s : Vault)
      → find_deposit id s.deposits ≡ row
      → Moves s (advance_row run row s)
  unfolding advance_row
  advance_row-Moves id none s h = Carries-refl s.deposits
  advance_row-Moves id (some d) s h =
      let same = same_id s.deposits id d h in
      elim (Option-cases d.tx_hash) [
        | inl unset ↦ rw (unset, advance_row) (Carries-refl s.deposits)
        | inr (hash, set) ↦ elim (Bool-cases (is_final d.status)) [
          | inl final ↦ rw (set, final, advance_row) (Carries-refl s.deposits)
          | inr live ↦
              rw (set, live, advance_row)
                (observe-Moves d live (run.confirmations hash) s
                  (subst (λ k. find_deposit k s.deposits ≡ some d) (sym same) h))
        ]
      ]

  pub advance-IsStep :
      IsHonest run.weather → (id : String) → IsKept IsStep (advance_confirmations run id)
  unfolding advance_confirmations
  advance-IsStep honest id = record {
    leaves = λ s. record {
      sound = advance_confirmations-Leaves run honest id s;
      carries =
          read-P (λ r. Moves s r) s (run.fault State.find_row) _ _ (λ e. Carries-refl s.deposits)
            (advance_row-Moves id (find_deposit id s.deposits) s refl);
    };
  }
