-- ===== src/Billing/Moved.antt =====
-- What a pass of `chargeDuePlans` (apps/api/src/billing/billing.service.ts) may do to the ledger and to a
-- user.
use tenzopay.Base.{
  String, str_eq, str_eq_iff, some, true, Bool-cases, inl, inr, ◌⊎◌, List, [], ◌∷◌, ◌≡◌, refl, sym,
  ap, subst, ◌∙◌,
}
use tenzopay.Actions.{IsPreorder}
use tenzopay.Ledger.Invariant.{IsValid}
use tenzopay.Ledger.Safety.{Extends, Extends-refl, Extends-trans}
use tenzopay.Billing.State.{starter, User, Firm, find_user, update_user}

-- The same user with the same status, on the same plan, or on Starter where that is due.
pub record Moved (Due : String → Type 0) (u w : User) : Type 0 where
  pub id : w.id ≡ u.id
  pub status : w.status ≡ u.status
  pub plan : (w.plan ≡ u.plan) ⊎ ((w.plan ≡ starter) × Due u.id)

-- Valid books stay valid and lose no posting, and every user is still there.
pub record Passed (Due : String → Type 0) (s t : Firm) : Type 0 where
  pub books : IsValid s.books → IsValid t.books × Extends s.books t.books
  pub users :
      (id : String) (u : User)
      → find_user id s.users ≡ some u
      → (w : User) × (find_user id t.users ≡ some w) × Moved Due u w

first :
    (x u : User) (us : List User) (whom : String)
    → str_eq x.id whom ≡ true
    → find_user whom (x ∷ us) ≡ some u
    → x ≡ u
unfolding find_user
first x u us whom here h = let e : some x ≡ some u = rw here at h in cc (e)

module _ {Due : String → Type 0} where
  pub Moved-refl : (u : User) → Moved Due u u
  Moved-refl u = record { id = refl; status = refl; plan = inl refl }

  Moved-trans : (u v w : User) → Moved Due u v → Moved Due v w → Moved Due u w
  Moved-trans u v w p q = record {
    id = q.id ∙ p.id;
    status = q.status ∙ p.status;
    plan = elim q.plan [
      | inl same ↦ elim p.plan [
        | inl before ↦ inl (same ∙ before)
        | inr (dropped, due) ↦ inr (same ∙ dropped, due)
      ]
      | inr (dropped, due) ↦ inr (dropped, subst Due p.id due)
    ];
  }

  pub same_users : {s t : Firm} → t.books ≡ s.books → t.users ≡ s.users → Passed Due s t
  same_users {s} {t} p q = record {
    books = λ v. subst (λ b. IsValid b × Extends s.books b) (sym p) (v, Extends-refl s.books);
    users = λ id u h. (u, ap (find_user id) q ∙ h, Moved-refl u);
  }

  instance pub Passed-IsPreorder : IsPreorder (Passed Due)
  Passed-IsPreorder = record {
    same = λ s. same_users refl refl;
    chain = λ s t u p q. record {
      books = λ v. let (x, e) = p.books v in let (y, f) = q.books x in (y, Extends-trans e f);
      users = λ id a h.
          let (b, g, x) = p.users id a h in
          let (c, k, y) = q.users id b g in (c, k, Moved-trans a b c x y);
    };
  }

  module _ (id : String) (f : User → User) where
    pub update-find :
        (us : List User) (whom : String) (u : User)
        → ((x : User) → x.id ≡ id → Moved Due x (f x))
        → find_user whom us ≡ some u
        → (w : User) × (find_user whom (update_user id f us) ≡ some w) × Moved Due u w
    unfolding find_user update_user
    update-find [] whom u p h = cc (h)
    update-find (x ∷ us) whom u p h = elim (Bool-cases (str_eq x.id id)) [
      | inr apart ↦ elim (Bool-cases (str_eq x.id whom)) [
        | inl here ↦
            rw (apart, here)
              (x, refl, subst (λ y. Moved Due y x) (first x u us whom here h) (Moved-refl x))
        | inr there ↦ rw (apart, there) (update-find us whom u p (rw there at h))
      ]
      | inl same ↦
          let m = p x ((str_eq_iff x.id id).0 same) in
          let k : str_eq (f x).id whom ≡ str_eq x.id whom = ap (λ y. str_eq y whom) m.id in
          elim (Bool-cases (str_eq x.id whom)) [
            | inl here ↦
                rw (same, k, here)
                  (f x, refl, subst (λ y. Moved Due y (f x)) (first x u us whom here h) m)
            | inr there ↦ rw (same, k, there) (u, rw there at h, Moved-refl u)
          ]
    ]
