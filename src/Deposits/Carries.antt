-- ===== src/Deposits/Carries.antt =====
-- How a row of the deposits of apps/api/src/deposits/deposits.service.ts may change.
use tenzopay.Base.{
  ℕ, ◌≤◌, String, str_eq, str_eq_iff, some, false, Bool-cases, inl, inr, List, [], ◌∷◌, ◌≡◌, refl,
  sym, ap, ◌∙◌, arith,
}
use tenzopay.Deposits.State.{
  DepositStatus, pending, detected, confirming, confirmed, failed, orphaned, Deposit, Vault,
  find_deposit, update_deposit,
}
use tenzopay.Deposits.Sound.{IsSound}
use tenzopay.Actions.{IsPreorder}

-- How far a deposit has come.
abbrev pub stage : DepositStatus → ℕ
stage pending = 0
stage detected = 1
stage confirming = 2
stage confirmed = 3
stage failed = 3
stage orphaned = 4

-- The same transfer to the same user, no earlier on its way.
pub record Successor (d d' : Deposit) : Type 0 where
  pub id : d'.id ≡ d.id
  pub user_id : d'.user_id ≡ d.user_id
  pub amount : d'.amount ≡ d.amount
  pub currency : d'.currency ≡ d.currency
  pub forward : stage d.status ≤ stage d'.status

Successor-refl : (d : Deposit) → Successor d d
Successor-refl d = record {
  id = refl;
  user_id = refl;
  amount = refl;
  currency = refl;
  forward = omega arith;
}

Successor-trans : (d e f : Deposit) → Successor d e → Successor e f → Successor d f
Successor-trans d e f p q = record {
  id = q.id ∙ p.id;
  user_id = q.user_id ∙ p.user_id;
  amount = q.amount ∙ p.amount;
  currency = q.currency ∙ p.currency;
  forward = omega (arith, p.forward, q.forward);
}

-- Every row is still there, as it was or further on its way.
abbrev pub Carries : List Deposit → List Deposit → Type 0
Carries ds es =
    (id : String) (d : Deposit)
    → find_deposit id ds ≡ some d
    → (e : Deposit) × (find_deposit id es ≡ some e) × Successor d e

pub Carries-refl : (ds : List Deposit) → Carries ds ds
Carries-refl ds id d h = (d, h, Successor-refl d)

pub Carries-trans : (ds es fs : List Deposit) → Carries ds es → Carries es fs → Carries ds fs
Carries-trans ds es fs p q id d h =
    let (e, g, x) = p id d h in let (f, k, y) = q id e g in (f, k, Successor-trans d e f x y)

module _ (id : String) (f : Deposit → Deposit) where
  found_elsewhere :
      (ds : List Deposit) (other : String)
      → str_eq id other ≡ false
      → ((d : Deposit) → (f d).id ≡ d.id)
      → find_deposit other (update_deposit id f ds) ≡ find_deposit other ds
  unfolding find_deposit update_deposit
  found_elsewhere [] other apart keeps = refl
  found_elsewhere (d ∷ ds) other apart keeps = elim (Bool-cases (str_eq d.id id)) [
    | inl same ↦
        let p : d.id ≡ id = (str_eq_iff d.id id).0 same in
        let q : str_eq (f d).id other ≡ false = ap (λ x. str_eq x other) (keeps d ∙ p) ∙ apart in
        let r : str_eq d.id other ≡ false = ap (λ x. str_eq x other) p ∙ apart in
        ground (arith, same, q, r)
    | inr others ↦ ground (arith, others, found_elsewhere ds other apart keeps)
  ]

  pub found_here :
      (ds : List Deposit) (d : Deposit)
      → find_deposit id ds ≡ some d
      → ((d : Deposit) → (f d).id ≡ d.id)
      → find_deposit id (update_deposit id f ds) ≡ some (f d)
  unfolding find_deposit update_deposit
  found_here [] d h keeps = cc
  found_here (x ∷ ds) d h keeps =
      let k : str_eq (f x).id id ≡ str_eq x.id id = ap (λ y. str_eq y id) (keeps x) in
      elim (Bool-cases (str_eq x.id id)) [
        | inl same ↦
            let e : some x ≡ some d = rw same at h in
            let q : x ≡ d = cc (e) in rw same (rw (k, same) (ap (λ y. some (f y)) q))
        | inr others ↦
            let g : find_deposit id ds ≡ some d = rw others at h in
            rw others (rw others (found_here ds d g keeps))
      ]

  pub update-Carries :
      (ds : List Deposit)
      → ((d : Deposit) → (f d).id ≡ d.id)
      → ((d : Deposit) → find_deposit id ds ≡ some d → Successor d (f d))
      → Carries ds (update_deposit id f ds)
  update-Carries ds keeps p other d h = elim (Bool-cases (str_eq id other)) [
    | inl same ↦
        let q : id ≡ other = (str_eq_iff id other).0 same in
        let g : find_deposit id ds ≡ some d = rw q h in
        (f d, rw (sym q) (found_here ds d g keeps), p d g)
    | inr apart ↦ (d, found_elsewhere ds other apart keeps ∙ h, Successor-refl d)
  ]

-- What a method does to the tables: it keeps the invariant, and every row.
pub record IsStep (s t : Vault) : Type 0 where
  pub sound : IsSound s → IsSound t
  pub carries : Carries s.deposits t.deposits

instance pub IsStep-IsPreorder : IsPreorder IsStep
IsStep-IsPreorder = record {
  same = λ s. record { sound = λ v. v; carries = Carries-refl s.deposits };
  chain = λ s t u p q. record {
    sound = λ v. q.sound (p.sound v);
    carries = Carries-trans s.deposits t.deposits u.deposits p.carries q.carries;
  };
}
