-- ===== src/Deposits/SeenAgain.antt =====
-- A transfer that is seen again after its deposit is final (`recordTransfer` of
-- apps/api/src/deposits/deposits.service.ts).
use tenzopay.Base.{
  ltb_ℤ, String, Option, none, some, true, Bool-cases, inl, inr, ◌||◌, if◌then◌else◌, ◌≡◌, refl,
  sym, ap, subst, ◌∙◌, arith,
}
use tenzopay.Effects.{Thrown, Result, ok, err, pure, continue, try_catch}
use tenzopay.Queries.{read-P}
use tenzopay.Ledger.Books.{unique_violation}
use tenzopay.Ledger.Retry.{is_unique_violation}
use tenzopay.Deposits.State
use tenzopay.Deposits.State.{
  Config, DepositSource, DepositAddress, TokenTransfer, Deposit, Vault, Run, find_deposit,
  find_transfer, find_address_of,
}
use tenzopay.Deposits.Advance.{is_final, advance_row, advance_confirmations}
use tenzopay.Deposits.Record.{
  insert_raw, has_observed, record_raw_transaction, has_row, create_deposit, detected_row,
  record_new, advance_existing, record_seen, record_to, is_unexpected, record_transfer,
}

-- The ledger and the deposits are untouched.
pub record Still (s t : Vault) : Type 0 where
  pub books : t.books ≡ s.books
  pub deposits : t.deposits ≡ s.deposits

still : {s : Vault} → Still s s
still = record { books = refl; deposits = refl }

insert_raw-Still :
    (fault : Option Thrown) (t : TokenTransfer) (s : Vault) → Still s (insert_raw fault t s).1
unfolding insert_raw
insert_raw-Still (some e) t s = elim (Bool-cases (is_unique_violation e)) [
  | inl known ↦ rw (known, insert_raw) still
  | inr others ↦ rw (others, insert_raw) still
]
insert_raw-Still none t s = elim (Bool-cases (has_observed t s.observed)) [
  | inl known ↦ rw (known, insert_raw) still
  | inr new ↦ rw (new, insert_raw) (record { books = refl; deposits = refl })
]

after_pure :
    (r : Result (Unit {0}) × Vault) (id : Option String) (s : Vault)
    → r.1 ≡ s
    → (continue (λ u. pure id) r).1 ≡ s
after_pure (ok x, u) id s h = h
after_pure (err e, u) id s h = h

ignored :
    (r : Result (Unit {0}) × Vault) (s : Vault)
    → Still s r.1
    → Still s (continue (λ u. pure {A = Option String} none) r).1
ignored (ok x, u) s k = k
ignored (err e, u) s k = k

module _ (t : TokenTransfer) (d : Deposit) (final : is_final d.status ≡ true) where
  -- The transfer has the final row `d`.
  record IsDone (s : Vault) : Type 0 where
    by_transfer : find_transfer t s.deposits ≡ some d
    by_id : find_deposit d.id s.deposits ≡ some d

  IsDone-Still : (s u : Vault) → Still s u → IsDone s → IsDone u
  IsDone-Still s u k h = record {
    by_transfer = ap (find_transfer t) k.deposits ∙ h.by_transfer;
    by_id = ap (find_deposit d.id) k.deposits ∙ h.by_id;
  }

  final_row : (run : Run) (s : Vault) → advance_row run (some d) s ≡ (ok tt, s)
  unfolding advance_row
  final_row run s = ground (arith, final)

  advanced : (run : Run) (s : Vault) → IsDone s → (advance_confirmations run d.id s).1 ≡ s
  unfolding advance_confirmations
  advanced run s h =
      read-P (λ r. r.1 ≡ s) s (run.fault State.find_row) _ (advance_row run) (λ e. refl)
        (ap (λ r. r.1) (ap (λ o. advance_row run o s) h.by_id ∙ final_row run s))

  not_created :
      (fault : Option Thrown) (row : Deposit) (s : Vault)
      → IsDone s
      → (e : Thrown) × (create_deposit fault row t s ≡ (err e, s))
  unfolding create_deposit
  not_created (some e) row s h = (e, refl)
  not_created none row s h =
      let there : has_row (find_transfer t s.deposits) ≡ true = rw h.by_transfer refl in
      let both : has_row (find_deposit row.id s.deposits) || has_row (find_transfer t s.deposits)
          ≡ true =
        ground (arith, there) in
      (unique_violation, rw (both, create_deposit) refl)

  existing :
      (run : Run) (o : Option Deposit) (s : Vault)
      → IsDone s
      → o ≡ some d
      → (advance_existing run o s).1 ≡ s
  unfolding advance_existing
  existing run o s h e =
      subst (λ x. (advance_existing run x s).1 ≡ s) (sym e)
        (after_pure (advance_confirmations run d.id s) (some d.id) s (advanced run s h))

  seen : (run : Run) (e : Thrown) (s : Vault) → IsDone s → (record_seen run t e s).1 ≡ s
  unfolding record_seen
  seen run e s h = elim (Bool-cases (is_unique_violation e)) [
    | inl known ↦
        rw (known, record_seen)
          (read-P (λ r. r.1 ≡ s) s (run.fault State.find_existing) _ (advance_existing run)
            (λ e. refl) (existing run (find_transfer t s.deposits) s h h.by_transfer))
    | inr others ↦ rw (others, record_seen) refl
  ]

  module _ (config : Config) (run again : Run) (source : DepositSource) (id : String) where
    tried :
        (address : DepositAddress) (s : Vault)
        → IsDone s
        → (try_catch (record_new config run t source id address) (record_seen again t) s).1 ≡ s
    unfolding try_catch record_new
    tried address s h =
        let (e, refused) =
          not_created (run.fault State.create_row) (detected_row config run t source id address) s
            h in
        rw refused (seen again e s h)

    recorded :
        (r : Result (Unit {0}) × Vault) (address : DepositAddress) (s : Vault)
        → IsDone s
        → Still s r.1
        → Still s
            (continue
              (λ u.
                if ltb_ℤ t.amount config.min_amount
                then pure none
                else try_catch (record_new config run t source id address) (record_seen again t))
              r).1
    recorded (err e, u) address s h k = k
    recorded (ok x, u) address s h k = elim (Bool-cases (ltb_ℤ t.amount config.min_amount)) [
      | inl low ↦ rw low k
      | inr enough ↦ rw enough (subst (Still s) (sym (tried address u (IsDone-Still s u k h))) k)
    ]

    to_address :
        (address : Option DepositAddress) (s : Vault)
        → IsDone s
        → Still s (record_to config run again t source id address s).1
    unfolding record_to record_raw_transaction
    to_address none s h =
        ignored (insert_raw (run.fault State.record_raw) t s) s
          (insert_raw-Still (run.fault State.record_raw) t s)
    to_address (some address) s h =
        recorded (insert_raw (run.fault State.record_raw) t s) address s h
          (insert_raw-Still (run.fault State.record_raw) t s)

    seen_again : (s : Vault) → IsDone s → Still s (record_transfer config run again t source id s).1
    unfolding record_transfer record_raw_transaction
    seen_again s h = elim (Bool-cases (is_unexpected config t)) [
      | inl other_token ↦
          rw (other_token, record_transfer)
            (ignored (insert_raw (run.fault State.record_raw) t s) s
              (insert_raw-Still (run.fault State.record_raw) t s))
      | inr expected ↦
          rw (expected, record_transfer)
            (read-P (λ r. Still s r.1) s (run.fault State.find_address) _
              (record_to config run again t source id) (λ e. still)
              (to_address (find_address_of t s.addresses) s h))
    ]

-- A transfer whose deposit is CONFIRMED, FAILED or ORPHANED, observed again by any path, with whatever
-- failing queries, node and other writers of the ledger: the ledger and the deposits are left exactly as
-- they are.
pub record_transfer_again :
    (config : Config) (run again : Run) (t : TokenTransfer) (source : DepositSource) (id : String)
    (d : Deposit) (s : Vault)
    → is_final d.status ≡ true
    → find_transfer t s.deposits ≡ some d
    → find_deposit d.id s.deposits ≡ some d
    → ((record_transfer config run again t source id s).1.books ≡ s.books)
      × ((record_transfer config run again t source id s).1.deposits ≡ s.deposits)
record_transfer_again config run again t source id d s final p q =
    let k =
      seen_again t d final config run again source id s (record { by_transfer = p; by_id = q }) in
    (k.books, k.deposits)
