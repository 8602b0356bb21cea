-- ===== src/Webhooks/Marks.antt =====
-- What a run of `syncCardTransaction` (apps/api/src/webhooks/webhooks.service.ts) leaves on the row.
use tenzopay.Base.{
  ℕ, pos, ltb_ℤ, String, str_eq, str_eq_iff, Option, none, some, true, Bool-cases, inl, inr, List,
  [], ◌∷◌, ◌≡◌, refl, ap, ◌∙◌, arith, ◌<>◌,
}
use tenzopay.Effects.{Result, ok, err, pure, continue}
use tenzopay.Ledger.Books.{Books, find_transaction}
use tenzopay.Asa.State.{CardTransactionStatus, settled, Card, CardTransaction, Desk}
use tenzopay.Asa.Decide.{on_books}
use tenzopay.Asa.Paths.{query-P}
use tenzopay.Webhooks.Rows.{
  Report, Run, update_the_row, find_the_hold, status_eq, find_row, update_row, Amounts, upsert_row,
  held_of_row, releases,
}
use tenzopay.Webhooks.Sync.{refer_row, settle_row, release_row, apply_status, has_status}

-- The row of the token is there with the status, and the cards are those of `s`.
pub record IsMarked (token : String) (mapped : CardTransactionStatus) (s t : Desk) : Type 0 where
  pub marked : has_status (find_row token t.transactions) mapped ≡ true
  pub same_cards : t.cards ≡ s.cards

status_eq_self : (status : CardTransactionStatus) → status_eq status status ≡ true
unfolding status_eq
status_eq_self status = ground arith

module _ (token : String) (mapped : CardTransactionStatus) (f : CardTransaction → CardTransaction)
    (keeps : (t : CardTransaction)
      → (f t).provider_transaction_token ≡ t.provider_transaction_token) where
  same_token :
      (t : CardTransaction)
      → str_eq (f t).provider_transaction_token token ≡ str_eq t.provider_transaction_token token
  same_token t = ap (λ x. str_eq x token) (keeps t)

  update_keeps :
      ((t : CardTransaction) → (f t).status ≡ t.status)
      → (ts : List CardTransaction)
      → has_status (find_row token (update_row token f ts)) mapped
        ≡ has_status (find_row token ts) mapped
  unfolding find_row update_row
  update_keeps status [] = refl
  update_keeps status (t ∷ rest) = ground (arith, same_token t, status t, update_keeps status rest)

  update_marks :
      ((t : CardTransaction) → (f t).status ≡ mapped)
      → (ts : List CardTransaction) (old : CardTransaction) → find_row token ts ≡ some old
      → has_status (find_row token (update_row token f ts)) mapped ≡ true
  unfolding find_row update_row
  update_marks status [] old h = cc
  update_marks status (t ∷ rest) old h =
      ground (arith, same_token t, status t, status_eq_self mapped, update_marks status rest old)

module _ (token : String) (mapped : CardTransactionStatus) where
  pub upsert_row-IsMarked :
      (now : ℕ) (report : Report) (card : Card) (amounts : Amounts) (s : Desk)
      (existing : Option CardTransaction)
      → find_row token s.transactions ≡ existing
      → IsMarked token mapped s (upsert_row now report token card amounts mapped existing s)
  unfolding upsert_row find_row
  upsert_row-IsMarked now report card amounts s (some old) h = record {
    marked = update_marks token mapped _ (λ t. refl) (λ t. refl) s.transactions old h;
    same_cards = refl;
  }
  upsert_row-IsMarked now report card amounts s none h = record {
    marked = rw ((str_eq_iff token token).1 refl) (status_eq_self mapped);
    same_cards = refl;
  }

  on_books-IsMarked :
      {A : Type 0} (r : Result A × Books) (s t : Desk)
      → IsMarked token mapped s t
      → IsMarked token mapped s (on_books r t).1
  unfolding on_books
  on_books-IsMarked (x, b) s t m = record { marked = m.marked; same_cards = m.same_cards }

  module _ (run : Run) (card : Card) (s : Desk) where
    settled-IsMarked :
        (r : Result ℕ × Desk)
        → IsMarked token mapped s r.1
        → IsMarked token mapped s (continue (refer_row run token) r).1
    unfolding refer_row
    settled-IsMarked (ok id, t) m =
        query-P (λ r. IsMarked token mapped s r.1) t (run.fault update_the_row) _ _ (λ e. m)
          (record {
            marked = update_keeps token mapped _ (λ x. refl) (λ x. refl) t.transactions ∙ m.marked;
            same_cards = m.same_cards;
          })
    settled-IsMarked (err e, t) m = m

    released-IsMarked :
        (r : Result ℕ × Desk)
        → IsMarked token mapped s r.1
        → IsMarked token mapped s (continue (λ id. pure {A = Unit {0}} tt) r).1
    released-IsMarked (ok id, t) m = m
    released-IsMarked (err e, t) m = m

    found-IsMarked :
        (amounts : Amounts) (existing : Option CardTransaction) (t : Desk)
        → IsMarked token mapped s t
        → (hold : Option ℕ)
        → IsMarked token mapped s
            (release_row run token card (held_of_row existing amounts) hold t).1
    unfolding release_row
    found-IsMarked amounts existing t m none = m
    found-IsMarked amounts existing t m (some hold) =
        elim (Bool-cases (ltb_ℤ (pos 0) (held_of_row existing amounts))) [
          | inl some_held ↦
              rw (some_held, release_row) (released-IsMarked _ (on_books-IsMarked _ s t m))
          | inr nothing ↦ rw (nothing, release_row) m
        ]

    pub apply_status-IsMarked :
        (amounts : Amounts) (existing : Option CardTransaction) (t : Desk)
        → IsMarked token mapped s t
        → IsMarked token mapped s (apply_status run token card amounts mapped existing t).1
    unfolding apply_status settle_row release_row
    apply_status-IsMarked amounts existing t m = elim (Bool-cases (status_eq mapped settled)) [
      | inl settles ↦ rw (settles, apply_status) (settled-IsMarked _ (on_books-IsMarked _ s t m))
      | inr others ↦ elim (Bool-cases (releases mapped)) [
        | inr nothing ↦ rw (others, nothing, apply_status) m
        | inl ends ↦
            rw (others, ends, apply_status)
              (query-P (λ r. IsMarked token mapped s r.1) t (run.fault find_the_hold) _ _ (λ e. m)
                (found-IsMarked amounts existing t m
                  (find_transaction ("auth:" <> token) t.books.transactions)))
      ]
    ]
