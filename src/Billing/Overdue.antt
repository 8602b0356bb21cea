-- ===== src/Billing/Overdue.antt =====
-- Which users' days of grace are over (apps/api/src/billing/billing.service.ts).
use tenzopay.Base.{
  ℕ, zero, suc, ℤ, leb_ℤ, String, str_eq, str_eq_iff, Bool, true, false, Bool-cases, inl, inr, ◌&&◌,
  ◌||◌, List, [], ◌∷◌, All, ◌≡◌, refl, arith,
}
use tenzopay.Billing.State.{User}
use tenzopay.Billing.Charge.{days_failing, since_or, is_paying, paying}
use tenzopay.Billing.Moved.{Passed-IsPreorder}

-- Whether the table has a paying user of the id whose dunning is over.
unfoldable pub is_overdue : ℕ → ℤ → String → List User → Bool
is_overdue now days id [] = false
is_overdue now days id (u ∷ rest) =
    (str_eq u.id id
      && (is_paying u && leb_ℤ days (days_failing now (since_or now u.plan_dunning_since))))
    || is_overdue now days id rest

module _ (now : ℕ) (days : ℤ) where
  overdue_head :
      (u : User) (us : List User)
      → is_paying u ≡ true
      → leb_ℤ days (days_failing now (since_or now u.plan_dunning_since)) ≡ true
      → is_overdue now days u.id (u ∷ us) ≡ true
  unfolding is_overdue
  overdue_head u us p h = rw ((str_eq_iff u.id u.id).1 refl, p, h) refl

  overdue_tail :
      (id : String) (u : User) (us : List User)
      → is_overdue now days id us ≡ true
      → is_overdue now days id (u ∷ us) ≡ true
  unfolding is_overdue
  overdue_tail id u us h = ground (arith, h)

  All-tail :
      (us rest : List User) (u : User)
      → All
          (λ a.
            leb_ℤ days (days_failing now (since_or now a.plan_dunning_since)) ≡ true
            → is_overdue now days a.id rest ≡ true)
          us
      → All
          (λ a.
            leb_ℤ days (days_failing now (since_or now a.plan_dunning_since)) ≡ true
            → is_overdue now days a.id (u ∷ rest) ≡ true)
          us
  All-tail [] rest u v = tt
  All-tail (a ∷ us) rest u v = (λ h. overdue_tail a.id u rest (v.0 h), All-tail us rest u v.1)

  pub paying-All :
      (limit : ℕ) (us : List User)
      → All
          (λ a.
            leb_ℤ days (days_failing now (since_or now a.plan_dunning_since)) ≡ true
            → is_overdue now days a.id us ≡ true)
          (paying limit us)
  unfolding paying
  paying-All zero us = tt
  paying-All (suc limit) [] = tt
  paying-All (suc limit) (u ∷ us) = elim (Bool-cases (is_paying u)) [
    | inl p ↦
        rw p (λ h. overdue_head u us p h, All-tail (paying limit us) us u (paying-All limit us))
    | inr p ↦ rw p (All-tail (paying (suc limit) us) us u (paying-All (suc limit) us))
  ]
