-- ===== src/Ledger/Refinement.antt =====
-- The bodies of Ledger/Movements.antt implement the movements of wallets of Ledger/Wallet.antt.
use tenzopay.Base.{
  ℕ, ℤ, pos, ◌+ℤ◌, zero-+ℤ, String, none, some, List, [], length, ◌≡◌, ◌≢◌, inl, inr, ap, ◌∙◌,
}
use tenzopay.Effects.{Result, ok, continue}
use tenzopay.Ledger.Books.{FeeRow, Books, find_transaction}
use tenzopay.Ledger.Movements.{available_of, held_of}
use tenzopay.Ledger.Invariant.{IsValid}
use tenzopay.Ledger.View.{Legs}
use tenzopay.Ledger.Moved.{Moved, Posted}
use tenzopay.Ledger.Transfers.{
  release_hold_body-Posted, credit_refund_body-Posted, is_positive, is_not_positive,
  post_adjustment_body_credit, post_adjustment_body_debit,
}
use tenzopay.Ledger.Holds.{place_hold_body-Posted}
use tenzopay.Ledger.Charges.{charge_fee_body-Posted}
use tenzopay.Ledger.Deposited.{credit_deposit_body-Posted, reverse_deposit_body-Posted}
use tenzopay.Ledger.Settled.{settle_authorization_body-Posted}
use tenzopay.Ledger.Wallet.{
  Wallet, wallet_of, Movement, deposited, reversed, charged, held, released, refunded, settled,
  adjusted, key_of, perform, spend, Allowed,
}
use tenzopay.Ledger.Legs.{legs_of, available-spend, held-spend, available-others, held-others}

wallet_path : {v w : Wallet} → v.available ≡ w.available → v.held ≡ w.held → v ≡ w
wallet_path p q = λ i. record { available = p i; held = q i }

no_leg : (x y : ℤ) → x ≡ pos 0 → x +ℤ y ≡ y
no_leg x y h = rw h (zero-+ℤ y)

-- A body that has made a movement: the new transaction's id, and the legs as the only change.
abbrev pub Made : Movement → String → String → Books → Result ℕ × Books → Type 0
Made m user currency b r =
    (b' : Books) × (r ≡ (ok (length b.transactions), b'))
    × ((rows : List FeeRow) × Moved b (key_of m) (legs_of m user currency) rows
          (length b.transactions) b')

made :
    {b : Books} {key : String} {legs : Legs} {rows : List FeeRow} {r : Result ℕ × Books}
    → Posted b key legs rows r
    → (b' : Books) × (r ≡ (ok (length b.transactions), b'))
      × ((rows : List FeeRow) × Moved b key legs rows (length b.transactions) b')
made {rows} (b', e, m) = (b', e, (rows, m))

module _ (user currency : String) (b : Books) (v : IsValid b) where
  pub perform-Made :
      (m : Movement)
      → Allowed m (wallet_of user currency b)
      → find_transaction (key_of m) b.transactions ≡ none
      → Made m user currency b (perform m user currency b)
  unfolding perform key_of legs_of
  perform-Made (deposited id amount fee) a fresh =
      made (credit_deposit_body-Posted user id amount fee currency b v a.0 a.1 fresh)
  perform-Made (reversed id amount fee) a fresh =
      made (reverse_deposit_body-Posted user id amount fee currency b v a.0 a.1 fresh)
  perform-Made (charged key amount type) a fresh =
      made (charge_fee_body-Posted user key amount type currency b v a.0 fresh a.1)
  perform-Made (held key amount) a fresh =
      let (b', e, moved) = place_hold_body-Posted user key amount currency b v a.0 fresh a.1 in
      (b', ap (continue (λ h c. (ok h.ledger_transaction_id, c))) e, ([], moved))
  perform-Made (released key amount) a fresh =
      made (release_hold_body-Posted user key amount currency b v a fresh)
  perform-Made (refunded key amount) a fresh =
      made (credit_refund_body-Posted user key amount currency b v a fresh)
  perform-Made (settled key held_amount amount fee) a fresh = made (
      settle_authorization_body-Posted user key held_amount amount fee currency b v a.0 a.1 a.2
        fresh)
  perform-Made (adjusted key amount) (inl up) fresh =
      rw (is_positive amount up)
        (made (post_adjustment_body_credit user key amount currency b v up fresh))
  perform-Made (adjusted key amount) (inr (down, covered)) fresh =
      rw (is_not_positive amount down)
        (made (post_adjustment_body_debit user key amount currency b v down covered fresh))

  -- Every movement that is allowed, under a key that is not posted yet, is made: its body returns the
  -- new transaction, keeps the books valid, and does to the user's wallet what the movement promises.
  pub perform-refines-spend :
      (m : Movement)
      → Allowed m (wallet_of user currency b)
      → find_transaction (key_of m) b.transactions ≡ none
      → (b' : Books) × (perform m user currency b ≡ (ok (length b.transactions), b'))
        × IsValid b'
        × (find_transaction (key_of m) b'.transactions ≡ some (length b.transactions))
        × (wallet_of user currency b' ≡ spend m (wallet_of user currency b))
  perform-refines-spend m a fresh =
      let w = wallet_of user currency b in
      let (b', e, (rows, moved)) = perform-Made m a fresh in
      (
        b',
        e,
        moved.valid,
        moved.posted,
        wallet_path
            (moved.balances (available_of user currency) ∙ available-spend user currency w m)
            (moved.balances (held_of user currency) ∙ held-spend user currency w m),
      )

  -- Such a movement leaves every wallet of another user, in any currency, as it was.
  pub perform_elsewhere :
      (m : Movement) (other c : String)
      → user ≢ other
      → Allowed m (wallet_of user currency b)
      → find_transaction (key_of m) b.transactions ≡ none
      → wallet_of other c (perform m user currency b).1 ≡ wallet_of other c b
  perform_elsewhere m other c apart a fresh =
      let (b', e, (rows, moved)) = perform-Made m a fresh in
      rw e (
        wallet_path
          (moved.balances (available_of other c)
            ∙ no_leg _ _ (available-others user currency other apart c m))
          (moved.balances (held_of other c)
            ∙ no_leg _ _ (held-others user currency other apart c m)))
