-- ===== src/Deposits/Safety.antt =====
-- The methods of apps/api/src/deposits/deposits.service.ts that advance and record deposits
-- keep the invariant and every row: the walker, the record of a transfer, and the sweep.
use tenzopay.Base.{
  ℕ, suc, ltb_ℤ, String, str_eq, Option, none, some, Bool-cases, inl, inr, not, ◌||◌, List, [], ◌∷◌,
  Bool, false, ◌≡◌, ◌≢◌, refl, sym, subst, ap, ◌∙◌, All, str_eq_iff, arith,
}
use tenzopay.Effects.{Thrown, Result, ok, err}
use tenzopay.Ledger.Retry.{is_unique_violation}
use tenzopay.Ledger.CallSafety.{IsHonest}
use tenzopay.Deposits.State
use tenzopay.Deposits.State.{
  NotificationType, Config, onchain, orphaned, DepositSource, DepositAddress, TokenTransfer,
  Deposit, Vault, Run, find_deposit, find_transfer, update_deposit, with_deposits, on_books,
  find_address_of,
}
use tenzopay.Deposits.Advance.{advance_each, advance_all_pending, notify_user}
use tenzopay.Deposits.Record.{
  insert_raw, has_observed, record_raw_transaction, detected_row, has_row, create_deposit,
  record_new, advance_existing, record_seen, record_to, is_unexpected, record_transfer, Turn,
  record_each, record_page, reconcile_address,
}
use tenzopay.Actions.{
  IsKept, read-IsKept, bind-IsKept, pure-IsKept, throw-IsKept, catch-IsKept, if-IsKept,
  write_quietly-IsKept,
}
use tenzopay.Deposits.Carries.{IsStep, IsStep-IsPreorder, Carries, Carries-refl}
use tenzopay.Deposits.Forward.{advance-IsStep}
use tenzopay.Deposits.Sound.{IsBacked}
use tenzopay.Ledger.Invariant.{IsValid}

advance_each-IsKept :
    (runs : String → Run)
    → ((id : String) → IsHonest (runs id).weather)
    → (ids : List String) (n : ℕ) → IsKept IsStep (advance_each runs ids n)
unfolding advance_each
advance_each-IsKept runs honest [] n = pure-IsKept n
advance_each-IsKept runs honest (id ∷ ids) n = bind-IsKept _ _ (read-IsKept _ _) (λ before.
    bind-IsKept _ _
      (bind-IsKept _ _ (advance-IsStep (runs id) (honest id) id) (λ u. read-IsKept _ _))
      (λ after. advance_each-IsKept runs honest ids _))

pub advance_all_pending-IsKept :
    (fault : Option Thrown) (runs : String → Run)
    → ((id : String) → IsHonest (runs id).weather)
    → IsKept IsStep (advance_all_pending fault runs)
unfolding advance_all_pending
advance_all_pending-IsKept fault runs honest =
    bind-IsKept _ _ (read-IsKept _ _)
      (λ ids. bind-IsKept _ _ (advance_each-IsKept runs honest ids 0) (λ n. pure-IsKept _))

-- A write beside the books and the deposits.
beside : {s t : Vault} → t.books ≡ s.books → t.deposits ≡ s.deposits → IsStep s t
beside {s} {t} p q = record {
  sound = λ v. record {
    valid = subst IsValid (sym p) v.valid;
    backed =
        subst (λ ds. All (IsBacked t.books) ds) (sym q)
          (subst (λ b. All (IsBacked b) s.deposits) (sym p) v.backed);
  };
  carries = subst (λ ds. Carries s.deposits ds) (sym q) (Carries-refl s.deposits);
}

notify_user-IsKept :
    (run : Run) (user : String) (type : NotificationType) (deposit : String)
    → IsKept IsStep (notify_user run user type deposit)
unfolding notify_user
notify_user-IsKept run user type deposit = write_quietly-IsKept _ _ (λ s. beside refl refl)

nothing : (s : Vault) → IsStep s s
nothing s = beside refl refl

insert_raw-IsKept : (fault : Option Thrown) (t : TokenTransfer) → IsKept IsStep (insert_raw fault t)
unfolding insert_raw
insert_raw-IsKept (some e) t = record {
  leaves = λ s. elim (Bool-cases (is_unique_violation e)) [
    | inl known ↦ rw (known, insert_raw) (nothing s)
    | inr others ↦ rw (others, insert_raw) (nothing s)
  ];
}
insert_raw-IsKept none t = record {
  leaves = λ s. elim (Bool-cases (has_observed t s.observed)) [
    | inl known ↦ rw (known, insert_raw) (nothing s)
    | inr new ↦ rw (new, insert_raw) (beside refl refl)
  ];
}

record_raw-IsKept : (run : Run) (t : TokenTransfer) → IsKept IsStep (record_raw_transaction run t)
unfolding record_raw_transaction
record_raw-IsKept run t = insert_raw-IsKept (run.fault State.record_raw) t

taken : (o : Option Deposit) (d : Deposit) → has_row o ≡ false → o ≢ some d
taken o d h e = cc (h, ap has_row e)

not_seen : (a b : Bool) → (a || b) ≡ false → a ≡ false
not_seen a b h = ground arith

-- A fresh id at the front hides no row.
new_row-Carries :
    (row : Deposit) (ds : List Deposit)
    → has_row (find_deposit row.id ds) ≡ false
    → Carries ds (row ∷ ds)
unfolding find_deposit
new_row-Carries row ds fresh id d h = elim (Bool-cases (str_eq row.id id)) [
  | inl same ↦
      let p : row.id ≡ id = (str_eq_iff row.id id).0 same in
      let q : find_deposit row.id ds ≡ some d = ap (λ k. find_deposit k ds) p ∙ h in
      absurd (taken _ d fresh q)
  | inr apart ↦ let (e, g, x) = Carries-refl ds id d h in (e, rw apart g, x)
]

create_deposit-IsKept :
    (fault : Option Thrown) (config : Config) (run : Run) (t : TokenTransfer)
    (source : DepositSource) (id : String) (address : DepositAddress)
    → IsKept IsStep (create_deposit fault (detected_row config run t source id address) t)
unfolding create_deposit
create_deposit-IsKept (some e) config run t source id address = record { leaves = nothing }
create_deposit-IsKept none config run t source id address = record {
  leaves = λ s.
      let row = detected_row config run t source id address in
      let seen = has_row (find_deposit row.id s.deposits) || has_row (find_transfer t s.deposits) in
      elim (Bool-cases seen) [
        | inl old ↦ rw (old, create_deposit) (nothing s)
        | inr new ↦
            rw (new, create_deposit)
              (record {
                sound = λ v. record {
                  valid = v.valid;
                  backed = (
                    record {
                      posted = λ n h. cc (h);
                      credited = λ h. cc (h);
                      standing = λ n h. cc (h);
                    },
                    v.backed,
                  );
                };
                carries = new_row-Carries row s.deposits (not_seen _ _ new);
              })
      ];
}

advance_existing-IsKept :
    (run : Run)
    → IsHonest run.weather
    → (d : Option Deposit) → IsKept IsStep (advance_existing run d)
unfolding advance_existing
advance_existing-IsKept run honest none = pure-IsKept none
advance_existing-IsKept run honest (some d) =
    bind-IsKept _ _ (advance-IsStep run honest d.id) (λ u. pure-IsKept (some d.id))

module _ (config : Config) (run again : Run) (honest : IsHonest run.weather)
    (honest_again : IsHonest again.weather) (t : TokenTransfer) (source : DepositSource)
    (id : String) where
  record_seen-IsKept : (e : Thrown) → IsKept IsStep (record_seen again t e)
  unfolding record_seen
  record_seen-IsKept e =
      if-IsKept _ _ (is_unique_violation e)
        (bind-IsKept _ _ (read-IsKept _ _) (advance_existing-IsKept again honest_again))
        (throw-IsKept e)

  record_new-IsKept :
      (address : DepositAddress) → IsKept IsStep (record_new config run t source id address)
  unfolding record_new
  record_new-IsKept address =
      bind-IsKept _ _
        (bind-IsKept _ _
          (bind-IsKept _ _
            (create_deposit-IsKept (run.fault State.create_row) config run t source id address)
            (λ u. notify_user-IsKept run address.user_id State.deposit_detected id))
          (λ u. advance-IsStep run honest id))
        (λ u. pure-IsKept (some id))

  record_to-IsKept :
      (address : Option DepositAddress)
      → IsKept IsStep (record_to config run again t source id address)
  unfolding record_to
  record_to-IsKept none = bind-IsKept _ _ (record_raw-IsKept run t) (λ u. pure-IsKept none)
  record_to-IsKept (some address) = bind-IsKept _ _ (record_raw-IsKept run t) (λ u.
      if-IsKept _ _ (ltb_ℤ t.amount config.min_amount) (pure-IsKept none)
        (catch-IsKept _ _ (record_new-IsKept address) record_seen-IsKept))

  pub record_transfer-IsKept : IsKept IsStep (record_transfer config run again t source id)
  unfolding record_transfer
  record_transfer-IsKept =
      if-IsKept _ _ (is_unexpected config t)
        (bind-IsKept _ _ (record_raw-IsKept run t) (λ u. pure-IsKept none))
        (bind-IsKept _ _ (read-IsKept _ _) record_to-IsKept)

-- Honest others, in both runs of a turn.
pub record IsHonestTurn (turn : Turn) : Type 0 where
  pub run : IsHonest turn.run.weather
  pub again : IsHonest turn.again.weather

record_each-IsKept :
    (config : Config) (turns : ℕ → Turn)
    → ((n : ℕ) → IsHonestTurn (turns n))
    → (ts : List TokenTransfer) (n recorded : ℕ)
    → IsKept IsStep (record_each config turns n ts recorded)
unfolding record_each
record_each-IsKept config turns honest [] n recorded = pure-IsKept recorded
record_each-IsKept config turns honest (t ∷ ts) n recorded =
    let turn = turns n in
    bind-IsKept _ _
      (record_transfer-IsKept config turn.run turn.again (honest n).run (honest n).again t onchain
        turn.new_id)
      (λ id. record_each-IsKept config turns honest ts (suc n) _)

page-IsKept :
    (config : Config) (turns : ℕ → Turn)
    → ((n : ℕ) → IsHonestTurn (turns n))
    → (page : Result (List TokenTransfer)) → IsKept IsStep (record_page config turns page)
unfolding record_page
page-IsKept config turns honest (err e) = throw-IsKept e
page-IsKept config turns honest (ok ts) =
    bind-IsKept _ _ (record_each-IsKept config turns honest ts 0 0) (λ n. pure-IsKept _)

pub reconcile_address-IsKept :
    (config : Config) (fault : Option Thrown) (page : Result (List TokenTransfer))
    (turns : ℕ → Turn) (address_id : String)
    → ((n : ℕ) → IsHonestTurn (turns n))
    → IsKept IsStep (reconcile_address config fault page turns address_id)
unfolding reconcile_address
reconcile_address-IsKept config fault page turns address_id honest =
    bind-IsKept _ _ (read-IsKept _ _) (λ known. if-IsKept _ _ (not known) (throw-IsKept _) (
      if-IsKept _ _ (str_eq config.usdt_contract "") (pure-IsKept _)
        (page-IsKept config turns honest page)))
