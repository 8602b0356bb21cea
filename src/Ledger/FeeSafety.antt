-- ===== src/Ledger/FeeSafety.antt =====
-- The transaction bodies that carry a fee, on every branch and for all arguments.
use tenzopay.Base.{
  ℤ, pos, ◌-ℤ◌, ◌<ℤ◌, ltb_ℤ, String, ◌<>◌, Option-cases, ◌||◌, Bool-cases, inl, inr, refl,
}
use tenzopay.Ledger.Books.{
  AccountKey, LedgerDirection, debit, credit, LedgerAccount, EntryInput, FeeType, Books,
  find_account, find_transaction, create_fee,
}
use tenzopay.Ledger.Books
use tenzopay.Ledger.Movements.{
  available_of, held_of, system_of, credit_deposit_body, reverse_deposit_body, charge_fee_body,
  new_charge, settle_authorization_body,
}
use tenzopay.Ledger.Invariant.{IsValid}
use tenzopay.Ledger.Ensure.{ensured, ensure_account_lem, find-ensured_self, find-ensured_kept}
use tenzopay.Ledger.Moved.{Opened-ensured}
use tenzopay.Ledger.Pairs.{opened_two, first_id, first-found, second-found, opened_two-Opened}
use tenzopay.Ledger.Charges.{charge_fee_body_new, charge_fee_body_known}
use tenzopay.Ledger.FeeParts.{fee_opened, fee_entries_lem, fee_opened-Opened, fee_opened_kept}
use tenzopay.Ledger.Safety.{Extends-refl, Keeps, post-Keeps, Keeps-then, create_fee-Keeps}
use tenzopay.Ledger.BodySafety.{Keeps-Opened, found-lt, first-lt, second-lt, require_funds_cases}
use tenzopay.Ledger.FeeSteps.{
  Known-fee_list, Known-append, Known-settled, Known-remainder, record_fee-Keeps,
}

module _ (user : String) (amount fee : ℤ) (currency : String) (b : Books) (v : IsValid b) where
  pub credit_deposit_body-Keeps :
      (id : String)
      → Keeps b
          ("deposit:" <> id <> ":confirm")
          (λ n. n)
          (credit_deposit_body user id amount fee currency b)
  unfolding credit_deposit_body
  credit_deposit_body-Keeps id =
      let key = "deposit:" <> id <> ":confirm" in
      let j = available_of user currency in
      let k = system_of Books.system_deposit_clearing currency in
      let c = opened_two j k b in
      let oc = opened_two-Opened j k b v in
      let o = fee_opened-Opened fee currency c oc in
      let kept = fee_opened_kept fee currency c in
      elim (Bool-cases (ltb_ℤ fee (pos 0) || ltb_ℤ amount fee)) [
        | inl bad ↦ rw (ensure_account_lem j b, ensure_account_lem k (ensured j b), bad) tt
        | inr fine ↦
            rw
              (
                ensure_account_lem j b,
                ensure_account_lem k (ensured j b),
                fine,
                fee_entries_lem fee currency c credit,
              )
              (Keeps-Opened key (λ n. n) _ o
                (Keeps-then (λ n. n) (λ n. n) _ _
                  (post-Keeps _ key _ _ o.valid (
                    found-lt k _ o.valid (kept k _ (second-found j k b)),
                    (
                      found-lt j _ o.valid (kept j _ (first-found j k b)),
                      Known-fee_list fee currency c credit oc.valid,
                    ),
                  ))
                  (λ n b' g.
                    Keeps-then (λ _. n) (λ m. m) _ _
                      (record_fee-Keeps user Books.deposit fee currency n g) (λ u b'' g'. g'))))
      ]

  pub reverse_deposit_body-Keeps :
      (id : String)
      → Keeps b
          ("deposit:" <> id <> ":reverse")
          (λ n. n)
          (reverse_deposit_body user id amount fee currency b)
  unfolding reverse_deposit_body
  reverse_deposit_body-Keeps id =
      let key = "deposit:" <> id <> ":reverse" in
      let j = available_of user currency in
      let k = system_of Books.system_deposit_clearing currency in
      let c = opened_two j k b in
      let oc = opened_two-Opened j k b v in
      let o = fee_opened-Opened fee currency c oc in
      let kept = fee_opened_kept fee currency c in
      rw
        (
          ensure_account_lem j b,
          ensure_account_lem k (ensured j b),
          fee_entries_lem fee currency c debit,
        )
        (Keeps-Opened key (λ n. n) _ o
          (post-Keeps _ key _ _ o.valid (
            found-lt j _ o.valid (kept j _ (first-found j k b)),
            (
              found-lt k _ o.valid (kept k _ (second-found j k b)),
              Known-fee_list fee currency c debit oc.valid,
            ),
          )))

pub charge_fee_body-Keeps :
    (user key : String) (amount : ℤ) (type : FeeType) (currency : String) (b : Books)
    → IsValid b
    → pos 0 <ℤ amount
    → Keeps b key (λ n. n) (charge_fee_body user key amount type currency b)
unfolding new_charge
charge_fee_body-Keeps user key amount type currency b v p =
    let j = available_of user currency in
    let k = system_of Books.system_fee_revenue currency in
    let o = opened_two-Opened j k b v in
    elim (Option-cases (find_transaction key b.transactions)) [
      | inr (id, found) ↦
          rw (charge_fee_body_known user key amount type currency b id found)
            (record { valid = v; extends = Extends-refl b; posted = found })
      | inl fresh ↦ elim (require_funds_cases (first_id j k b) amount (opened_two j k b)) [
        | inl (e, short) ↦
            rw
              (
                charge_fee_body_new user key amount type currency b fresh,
                ensure_account_lem j b,
                ensure_account_lem k (ensured j b),
                short,
              )
              tt
        | inr (funds, enough) ↦
            rw
              (
                charge_fee_body_new user key amount type currency b fresh,
                ensure_account_lem j b,
                ensure_account_lem k (ensured j b),
                enough,
              )
              (Keeps-Opened key (λ n. n) _ o
                (Keeps-then (λ n. n) (λ n. n) _ _
                  (post-Keeps _ key _ _ o.valid (first-lt j k b v, (second-lt j k b v, tt)))
                  (λ n b' g.
                    Keeps-then (λ _. n) (λ m. m) _ _ (create_fee-Keeps _ n p refl g)
                      (λ u b'' g'. g'))))
      ]
    ]

pub settle_authorization_body-Keeps :
    (user key : String) (held_amount settled fee : ℤ) (currency : String) (b : Books)
    → IsValid b
    → Keeps b key (λ n. n) (settle_authorization_body user key held_amount settled fee currency b)
unfolding settle_authorization_body
settle_authorization_body-Keeps user key held_amount settled fee currency b v =
    let j = available_of user currency in
    let k = held_of user currency in
    let m = system_of Books.system_card_settlement currency in
    let opened = opened_two j k b in
    let c = ensured m opened in
    let oc = Opened-ensured m (opened_two-Opened j k b v) in
    let o = fee_opened-Opened fee currency c oc in
    let d = fee_opened fee currency c in
    let kept = fee_opened_kept fee currency c in
    rw
      (
        ensure_account_lem j b,
        ensure_account_lem k (ensured j b),
        ensure_account_lem m opened,
        fee_entries_lem fee currency c credit,
      )
      (Keeps-Opened key (λ n. n) _ o
        (Keeps-then (λ n. n) (λ n. n) _ _
          (post-Keeps _ key _ _ o.valid (
            found-lt k _ o.valid (kept k _ (find-ensured_kept m opened k _ (second-found j k b))),
            Known-append d _ _
                (Known-settled d _ settled currency
                  (found-lt m _ o.valid (kept m _ (find-ensured_self m opened))))
                (Known-append d _ _ (Known-fee_list fee currency c credit oc.valid) (
                  Known-remainder d _ (held_amount -ℤ settled -ℤ fee) currency (
                    found-lt j _ o.valid
                      (kept j _ (find-ensured_kept m opened j _ (first-found j k b)))))),
          ))
          (λ n b' g.
            Keeps-then (λ _. n) (λ i. i) _ _ (record_fee-Keeps user Books.fx fee currency n g)
              (λ u b'' g'. g'))))
