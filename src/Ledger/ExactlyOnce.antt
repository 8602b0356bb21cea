-- ===== src/Ledger/ExactlyOnce.antt =====
-- Each money method of apps/api/src/ledger/ledger.service.ts under any interference by honest others.
use tenzopay.Base.{
  ℕ, ℤ, pos, ◌<ℤ◌, leb_ℤ, eqb_ℤ, String, ◌<>◌, false, Bool-cases, inl, inr, ◌≡◌, arith,
}
use tenzopay.Effects.{
  Thrown, insufficient_balance, ledger_imbalance, prisma_known, app_error, other, Result, ok, err,
  continue,
}
use tenzopay.Ledger.Books.{FeeType, Books}
use tenzopay.Ledger.Movements.{Hold}
use tenzopay.Ledger.Retry.{resolve_duplicate}
use tenzopay.Ledger.Methods.{
  Weather, unless_insufficient, report_winner, credit_deposit, reverse_deposit, charge_fee,
  place_hold, release_hold, settle_authorization, credit_refund, post_adjustment,
}
use tenzopay.Ledger.Invariant.{IsValid}
use tenzopay.Ledger.BodySafety.{
  release_hold_body-Keeps, credit_refund_body-Keeps, place_hold_body-Keeps,
  post_adjustment_body-Keeps,
}
use tenzopay.Ledger.FeeSafety.{
  credit_deposit_body-Keeps, reverse_deposit_body-Keeps, charge_fee_body-Keeps,
  settle_authorization_body-Keeps,
}
use tenzopay.Ledger.CallSafety.{
  IsHonest, Drift, still, Final, found-Final, retried-Final, caught-Final, once-Final,
}

positive_of : (x : ℤ) → leb_ℤ x (pos 0) ≡ false → pos 0 <ℤ x
positive_of x h = ground arith

module _ (w : Weather) (honest : IsHonest w) (b : Books) (v : IsValid b) where
  -- A call of creditDeposit, under any retries, aborts and writes of honest others: if it returns, its key is posted
  -- under the returned id, in valid books that still have all that was posted; if it throws, nothing
  -- of its own is written.
  pub credit_deposit-Final :
      (user id : String) (amount fee : ℤ) (currency : String)
      → Final w b
          ("deposit:" <> id <> ":confirm")
          (λ n. n)
          (credit_deposit w user id amount fee currency b)
  unfolding credit_deposit
  credit_deposit-Final user id amount fee currency =
      once-Final w honest b v _ _ (λ c u. credit_deposit_body-Keeps user amount fee currency c u id)

  -- A call of reverseDeposit, under any retries, aborts and writes of honest others: if it returns, its key is posted
  -- under the returned id, in valid books that still have all that was posted; if it throws, nothing
  -- of its own is written.
  pub reverse_deposit-Final :
      (user id : String) (amount fee : ℤ) (currency : String)
      → Final w b
          ("deposit:" <> id <> ":reverse")
          (λ n. n)
          (reverse_deposit w user id amount fee currency b)
  unfolding reverse_deposit
  reverse_deposit-Final user id amount fee currency =
      once-Final w honest b v _ _
        (λ c u. reverse_deposit_body-Keeps user amount fee currency c u id)

  -- A call of releaseHold, under any retries, aborts and writes of honest others: if it returns, its key is posted
  -- under the returned id, in valid books that still have all that was posted; if it throws, nothing
  -- of its own is written.
  pub release_hold-Final :
      (user key : String) (amount : ℤ) (currency : String)
      → Final w b key (λ n. n) (release_hold w user key amount currency b)
  unfolding release_hold
  release_hold-Final user key amount currency =
      once-Final w honest b v key _ (release_hold_body-Keeps user key amount currency)

  -- A call of creditRefund, under any retries, aborts and writes of honest others: if it returns, its key is posted
  -- under the returned id, in valid books that still have all that was posted; if it throws, nothing
  -- of its own is written.
  pub credit_refund-Final :
      (user key : String) (amount : ℤ) (currency : String)
      → Final w b key (λ n. n) (credit_refund w user key amount currency b)
  unfolding credit_refund
  credit_refund-Final user key amount currency =
      once-Final w honest b v key _ (credit_refund_body-Keeps user key amount currency)

  -- A call of settleAuthorization, under any retries, aborts and writes of honest others: if it returns, its key is posted
  -- under the returned id, in valid books that still have all that was posted; if it throws, nothing
  -- of its own is written.
  pub settle_authorization-Final :
      (user key : String) (held_amount settled fee : ℤ) (currency : String)
      → Final w b key (λ n. n) (settle_authorization w user key held_amount settled fee currency b)
  unfolding settle_authorization
  settle_authorization-Final user key held_amount settled fee currency =
      once-Final w honest b v key _
        (settle_authorization_body-Keeps user key held_amount settled fee currency)

  winner-Final :
      (key user currency : String) (r : Result ℕ × Books)
      → Final w b key (λ n. n) r
      → Final {A = Hold} w b key
          (λ h. h.ledger_transaction_id)
          (continue (report_winner user currency) r)
  winner-Final key user currency (ok id, c) g = g
  winner-Final key user currency (err e, c) t = t

  refused-Final :
      (key : String) (e : Thrown) (c : Books)
      → Drift w b c
      → Final w b key (λ n. n) (unless_insufficient (resolve_duplicate w.later key) e c)
  refused-Final key (insufficient_balance x y) c t = t
  refused-Final key (ledger_imbalance d) c t = found-Final w honest b v key (ledger_imbalance d) t
  refused-Final key (prisma_known a m s) c t = found-Final w honest b v key (prisma_known a m s) t
  refused-Final key (app_error a s) c t = found-Final w honest b v key (app_error a s) t
  refused-Final key (other s) c t = found-Final w honest b v key (other s) t

  -- A call of placeHold, under any retries, aborts and writes of honest others: if it returns, its key is posted
  -- under the returned id, in valid books that still have all that was posted; if it throws, nothing
  -- of its own is written.
  pub place_hold-Final :
      (user key : String) (amount : ℤ) (currency : String)
      → Final w b key (λ h. h.ledger_transaction_id) (place_hold w user key amount currency b)
  unfolding place_hold
  place_hold-Final user key amount currency =
      let keeps = place_hold_body-Keeps user key amount currency in
      caught-Final w honest b v key (λ h. h.ledger_transaction_id) _ keeps _ _
        (retried-Final w honest b v key (λ h. h.ledger_transaction_id) _ keeps)
        (λ e c t.
          winner-Final key user currency (resolve_duplicate w.later key e c)
            (found-Final w honest b v key e t))

  -- A call of chargeFee, for any amount, under any retries, aborts and writes of honest others: if it returns, its key is posted
  -- under the returned id, in valid books that still have all that was posted; if it throws, nothing
  -- of its own is written.
  pub charge_fee-Final :
      (user key : String) (amount : ℤ) (type : FeeType) (currency : String)
      → Final w b key (λ n. n) (charge_fee w user key amount type currency b)
  unfolding charge_fee
  charge_fee-Final user key amount type currency = elim (Bool-cases (leb_ℤ amount (pos 0))) [
    | inl low ↦ rw low still
    | inr high ↦
        let keeps = λ (c : Books) (u : IsValid c).
          charge_fee_body-Keeps user key amount type currency c u (positive_of amount high) in
        rw high (
          caught-Final w honest b v key (λ n. n) _ keeps _ _
            (retried-Final w honest b v key (λ n. n) _ keeps) (refused-Final key))
  ]

  -- A call of postAdjustment, for any amount, under any retries, aborts and writes of honest others: if it returns, its key is posted
  -- under the returned id, in valid books that still have all that was posted; if it throws, nothing
  -- of its own is written.
  pub post_adjustment-Final :
      (user key : String) (amount : ℤ) (currency : String)
      → Final w b key (λ n. n) (post_adjustment w user key amount currency b)
  unfolding post_adjustment
  post_adjustment-Final user key amount currency = elim (Bool-cases (eqb_ℤ amount (pos 0))) [
    | inl nothing ↦ rw nothing still
    | inr something ↦
        let keeps = post_adjustment_body-Keeps user key amount currency in
        rw something (
          caught-Final w honest b v key (λ n. n) _ keeps _ _
            (retried-Final w honest b v key (λ n. n) _ keeps)
            (λ e c t. found-Final w honest b v key e t))
  ]
