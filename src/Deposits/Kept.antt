-- ===== src/Deposits/Kept.antt =====
-- Every method of apps/api/src/deposits/deposits.service.ts keeps the invariant of Deposits/Sound.antt,
-- whatever its queries, the node, and other honest writers of the ledger do.
use tenzopay.Base.{
  ℕ, ◌-◌, ltb, String, Option, Option-cases, none, some, false, Bool-cases, inl, inr, ◌≡◌, ◌≢◌,
  refl, sym, subst, ap,
}
use tenzopay.Effects.{Thrown, Result, ok, err, continue}
use tenzopay.Queries.{write, write_quietly, read-P, write-P, with_result-P}
use tenzopay.Ledger.Books.{Books, find_transaction}
use tenzopay.Ledger.CallSafety.{IsHonest, Final}
use tenzopay.Ledger.ExactlyOnce.{credit_deposit-Final}
use tenzopay.Fees.Rates.{deposit_fee}
use tenzopay.Deposits.State
use tenzopay.Deposits.State.{
  DepositStatus, confirmed, failed, orphaned, pending, detected, confirming, Deposit,
  NotificationType, Vault, Run, find_deposit, update_deposit, with_deposits, on_books,
}
use tenzopay.Deposits.Advance.{
  is_final, is_credited, notify_user, confirmed_row, confirm, credit_net, credit_row, credit,
  ten_minutes, orphaned_row, confirming_row, observe, advance_row, advance_confirmations,
}
use tenzopay.Deposits.Sound.{
  IsBacked, IsSound, found-All, update_found-All, update-All, on_books-IsSound, confirm_key,
}

-- What a method leaves.
abbrev pub Leaves : {A : Type 0} → Result A × Vault → Type 0
Leaves r = IsSound r.1

quiet-Leaves :
    (fault : Option Thrown) (f : Vault → Vault) (s : Vault)
    → IsSound s
    → IsSound (f s)
    → Leaves (write_quietly fault f s)
unfolding write_quietly
quiet-Leaves none f s v u = u
quiet-Leaves (some e) f s v u = v

pub notify_user-Leaves :
    (run : Run) (user : String) (type : NotificationType) (deposit : String) (s : Vault)
    → IsSound s
    → Leaves (notify_user run user type deposit s)
unfolding notify_user
notify_user-Leaves run user type deposit s v =
    quiet-Leaves (run.fault State.notify) _ s v (record { valid = v.valid; backed = v.backed })

some_id : {m n : ℕ} → some m ≡ some n → m ≡ n
some_id h = cc (h)

not_final_not_confirmed : (status : DepositStatus) → is_final status ≡ false → status ≢ confirmed
not_final_not_confirmed status h e = cc (h, ap is_final e)

not_final_not_orphaned : (status : DepositStatus) → is_final status ≡ false → status ≢ orphaned
not_final_not_orphaned status h e = cc (h, ap is_final e)

-- A row that is not final has no posting noted.
no_posting :
    {b : Books} (d : Deposit) (t : ℕ)
    → IsBacked b d
    → is_final d.status ≡ false
    → d.ledger_transaction_id ≢ some t
no_posting d t v h e = elim (v.standing t e) [
  | inl c ↦ not_final_not_confirmed d.status h c
  | inr (o, r) ↦ not_final_not_orphaned d.status h o
]

module _ (run : Run) (honest : IsHonest run.weather) where
  confirm-Leaves :
      (n : ℕ) (d : Deposit) (id : ℕ) (s : Vault)
      → IsSound s
      → find_transaction (confirm_key d.id) s.books.transactions ≡ some id
      → Leaves (confirm run n d id s)
  unfolding confirm
  confirm-Leaves n d id s v posted =
      let f = confirmed_row run n id in
      let backed =
        update-All (IsBacked s.books) d.id f s.deposits
          (λ x same u. record {
            posted = λ t h. rw (same, sym (some_id h)) posted;
            credited = λ h. (id, refl);
            standing = λ t h. inl refl;
          })
          v.backed in
      write-P (λ r. Leaves r) s (run.fault State.mark_confirmed) _ _ (λ e. v)
        (notify_user-Leaves run d.user_id State.deposit_confirmed d.id _
          (record { valid = v.valid; backed = backed }))

  credited-Leaves :
      (n : ℕ) (d : Deposit) (s : Vault) (r : Result ℕ × Books)
      → IsSound s
      → Final run.weather s.books (confirm_key d.id) (λ k. k) r
      → Leaves (continue (confirm run n d) (on_books r s))
  credited-Leaves n d s (ok id, b) v g =
      confirm-Leaves n d id (record s { books = b })
        (on_books-IsSound run.weather honest s v (confirm_key d.id) (λ k. k) (ok id, b) g) g.posted
  credited-Leaves n d s (err e, b) v g =
      on_books-IsSound run.weather honest s v (confirm_key d.id) (λ k. k) (err e, b) g

  credit_row-Leaves :
      (n : ℕ) (row : Option Deposit) (s : Vault) → IsSound s → Leaves (credit_row run n row s)
  unfolding credit_row credit_net
  credit_row-Leaves n none s v = v
  credit_row-Leaves n (some d) s v = elim (Bool-cases (is_credited d)) [
    | inl done ↦ rw (done, credit_row) v
    | inr open_yet ↦
        rw (open_yet, credit_row)
          (with_result-P (λ r. Leaves r) s run.rates (credit_net run n d) (λ e. v)
            (λ rates h. credited-Leaves n d s _ v (
              credit_deposit-Final run.weather honest s.books v.valid d.user_id d.id d.amount
                (deposit_fee rates d.amount) d.currency)))
  ]

  credit-Leaves : (id : String) (n : ℕ) (s : Vault) → IsSound s → Leaves (credit run id n s)
  unfolding credit
  credit-Leaves id n s v =
      read-P (λ r. Leaves r) s (run.fault State.find_uncredited) _ _ (λ e. v)
        (credit_row-Leaves n (find_deposit id s.deposits) s v)

  -- A write of a row that is not final, by a status that is not final or orphaned.
  write-Leaves :
      (d : Deposit) (f : Deposit → Deposit) (fault : Option Thrown) (s : Vault)
      → IsSound s
      → find_deposit d.id s.deposits ≡ some d
      → IsBacked s.books (f d)
      → Leaves (write fault (with_deposits (update_deposit d.id f)) s)
  unfolding write
  write-Leaves d f (some e) s v h p = v
  write-Leaves d f none s v h p = record {
    valid = v.valid;
    backed = update_found-All (IsBacked s.books) d.id f s.deposits d v.backed h p;
  }

  orphaned-IsBacked :
      {b : Books} (d : Deposit)
      → IsBacked b d
      → is_final d.status ≡ false
      → IsBacked b (orphaned_row d)
  orphaned-IsBacked d v h = record {
    posted = v.posted;
    credited = λ e. cc (e);
    standing = λ t e. absurd (no_posting d t v h e);
  }

  confirming-IsBacked :
      {b : Books} (n : ℕ) (d : Deposit)
      → IsBacked b d
      → is_final d.status ≡ false
      → IsBacked b (confirming_row n d)
  confirming-IsBacked n d v h = record {
    posted = v.posted;
    credited = λ e. cc (e);
    standing = λ t e. absurd (no_posting d t v h e);
  }

  observe-Leaves :
      (d : Deposit) (answer : Result (Option ℕ)) (s : Vault)
      → IsSound s
      → find_deposit d.id s.deposits ≡ some d
      → IsBacked s.books d
      → is_final d.status ≡ false
      → Leaves (observe run d answer s)
  unfolding observe
  observe-Leaves d (err e) s v h b live = v
  observe-Leaves d (ok none) s v h b live =
      elim (Bool-cases (ltb ten_minutes (run.now - d.created_at))) [
        | inl old ↦
            rw (old, observe)
              (write-Leaves d orphaned_row (run.fault State.update_row) s v h
                (orphaned-IsBacked d b live))
        | inr young ↦ rw (young, observe) v
      ]
  observe-Leaves d (ok (some n)) s v h b live = elim (Bool-cases (ltb n d.required_confirmations)) [
    | inl few ↦
        rw (few, observe)
          (write-Leaves d (confirming_row n) (run.fault State.update_row) s v h
            (confirming-IsBacked n d b live))
    | inr enough ↦ rw (enough, observe) (credit-Leaves d.id n s v)
  ]

  advance_row-Leaves :
      (id : String) (row : Option Deposit) (s : Vault)
      → IsSound s
      → find_deposit id s.deposits ≡ row
      → Leaves (advance_row run row s)
  unfolding advance_row
  advance_row-Leaves id none s v h = v
  advance_row-Leaves id (some d) s v h =
      let (b, same) = found-All (IsBacked s.books) id s.deposits d v.backed h in
      elim (Option-cases d.tx_hash) [
        | inl unset ↦ rw (unset, advance_row) v
        | inr (hash, set) ↦ elim (Bool-cases (is_final d.status)) [
          | inl final ↦ rw (set, final, advance_row) v
          | inr live ↦
              rw (set, live, advance_row)
                (observe-Leaves d (run.confirmations hash) s v
                  (subst (λ k. find_deposit k s.deposits ≡ some d) (sym same) h) b live)
        ]
      ]

  pub advance_confirmations-Leaves :
      (id : String) (s : Vault) → IsSound s → Leaves (advance_confirmations run id s)
  unfolding advance_confirmations
  advance_confirmations-Leaves id s v =
      read-P (λ r. Leaves r) s (run.fault State.find_row) _ _ (λ e. v)
        (advance_row-Leaves id (find_deposit id s.deposits) s v refl)
