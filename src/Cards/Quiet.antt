-- ===== src/Cards/Quiet.antt =====
-- The steps of apps/api/src/cards/cards.service.ts that leave the rows of the cards as they are, and what
-- can be said of the step behind them.
use tenzopay.Base.{ℤ, pos, leb_ℤ, String, Option, none, some, ◌≡◌, ◌≢◌, refl, ap, ◌∙◌}
use tenzopay.Effects.{
  Thrown, insufficient_balance, ledger_imbalance, prisma_known, app_error, other, Result, ok, err,
  Action, pure, continue, ◌>>=◌, ◌>>◌,
}
use tenzopay.Queries.{write_quietly}
use tenzopay.Actions.{
  IsPreorder, IsKept, bind-IsKept, pure-IsKept, throw-IsKept, read-IsKept, catch-IsKept, if-IsKept,
}
use tenzopay.Settings.Registry.{Office}
use tenzopay.Cards.State.{CardNews, Period, Deck, ProviderRule, Run, on_office}
use tenzopay.Cards.Create.{
  card_limit_for, uncovered, take_issuance, charge_issuance, keep_rule, promote,
  attach_velocity_rule, tell,
}

pub record SameCards (s t : Deck) : Type 0 where
  pub cards : t.cards ≡ s.cards

pub same : {s t : Deck} → t.cards ≡ s.cards → SameCards s t
same e = record { cards = e }

instance pub SameCards-IsPreorder : IsPreorder SameCards
SameCards-IsPreorder = record {
  same = λ s. same refl;
  chain = λ s t u p q. same (q.cards ∙ p.cards);
}

-- The ledger and the settings are as before.
pub record SameBooks (s t : Deck) : Type 0 where
  pub books : t.books ≡ s.books
  pub office : t.office ≡ s.office

instance pub SameBooks-IsPreorder : IsPreorder SameBooks
SameBooks-IsPreorder = record {
  same = λ s. record { books = refl; office = refl };
  chain = λ s t u p q. record { books = q.books ∙ p.books; office = q.office ∙ p.office };
}

-- A step that leaves the cards, and then one of which P is known wherever it starts with these cards.
module _ {A B : Type 0} (P : Result B × Deck → Type 0) (s : Deck) where
  behind :
      (k : A → Action Deck B) (r : Result A × Deck)
      → SameCards s r.1
      → ((e : Thrown) (t : Deck) → t.cards ≡ s.cards → P (err e, t))
      → ((a : A) (t : Deck) → t.cards ≡ s.cards → P (k a t))
      → P (continue k r)
  behind k (ok a, t) q on_error next = next a t q.cards
  behind k (err e, t) q on_error next = on_error e t q.cards

  pub after_quiet :
      (m : Action Deck A) (k : A → Action Deck B)
      → IsKept SameCards m
      → ((e : Thrown) (t : Deck) → t.cards ≡ s.cards → P (err e, t))
      → ((a : A) (t : Deck) → t.cards ≡ s.cards → P (k a t))
      → P ((m >>= k) s)
  after_quiet m k q on_error next = behind k (m s) (q.leaves s) on_error next

module _ {A B : Type 0} (P : Result B × Deck → Type 0) (s : Deck) where
  known :
      (k : A → Action Deck B) (r x : Result A × Deck)
      → x ≡ r
      → SameCards s r.1
      → ((e : Thrown) (t : Deck) → t.cards ≡ s.cards → P (err e, t))
      → ((a : A) (t : Deck) → x.0 ≡ ok a → t.cards ≡ s.cards → P (k a t))
      → P (continue k r)
  known k (ok a, t) x h q on_error next = next a t (ap (λ y. y.0) h) q.cards
  known k (err e, t) x h q on_error next = on_error e t q.cards

  -- The same, with the result of the first step.
  pub after_known :
      (m : Action Deck A) (k : A → Action Deck B)
      → IsKept SameCards m
      → ((e : Thrown) (t : Deck) → t.cards ≡ s.cards → P (err e, t))
      → ((a : A) (t : Deck) → (m s).0 ≡ ok a → t.cards ≡ s.cards → P (k a t))
      → P ((m >>= k) s)
  after_known m k q on_error next = known k (m s) (m s) refl (q.leaves s) on_error next

-- A step that never fails, and leaves the cards, the ledger and the settings.
pub record IsSilent (m : Action Deck (Unit {0})) : Type 0 where
  pub result : (s : Deck) → (m s).0 ≡ ok tt
  pub cards : (s : Deck) → (m s).1.cards ≡ s.cards
  pub books : (s : Deck) → SameBooks s (m s).1

pub untouched-IsKept : (m : Action Deck (Unit {0})) → IsSilent m → IsKept SameBooks m
untouched-IsKept m p = record { leaves = p.books }

pub silent-IsKept : (m : Action Deck (Unit {0})) → IsSilent m → IsKept SameCards m
silent-IsKept m p = record { leaves = λ s. same (p.cards s) }

no_error : {A : Type 0} {e : Thrown} {a : A} → err e ≢ ok a
no_error h = cc (h)

module _ {B : Type 0} (P : Result B × Deck → Type 0) (s : Deck) where
  hushed :
      (k : Unit {0} → Action Deck B) (r : Result (Unit {0}) × Deck)
      → r.0 ≡ ok tt
      → r.1.cards ≡ s.cards
      → ((t : Deck) → t.cards ≡ s.cards → P (k tt t))
      → P (continue k r)
  hushed k (ok u, t) h e next = next t e
  hushed k (err x, t) h e next = absurd (no_error h)

  pub after_silent :
      (m : Action Deck (Unit {0})) (k : Unit {0} → Action Deck B)
      → IsSilent m
      → ((t : Deck) → t.cards ≡ s.cards → P (k tt t))
      → P ((m >>= k) s)
  after_silent m k q next = hushed k (m s) (q.result s) (q.cards s) next

pub nothing-IsSilent : IsSilent (pure tt)
nothing-IsSilent = record {
  result = λ s. refl;
  cards = λ s. refl;
  books = SameBooks-IsPreorder.same;
}

pub both-IsSilent : (m n : Action Deck (Unit {0})) → IsSilent m → IsSilent n → IsSilent (m >> n)
both-IsSilent m n p q = record {
  result = λ s. after_silent (λ r. r.0 ≡ ok tt) s m (λ x. n) p (λ t e. q.result t);
  cards = λ s. after_silent (λ r. r.1.cards ≡ s.cards) s m (λ x. n) p (λ t e. q.cards t ∙ e);
  books = (bind-IsKept m (λ x. n) (untouched-IsKept m p) (λ x. untouched-IsKept n q)).leaves;
}

quiet_write-IsSilent :
    (fault : Option Thrown) (f : Deck → Deck)
    → ((s : Deck) → (f s).cards ≡ s.cards)
    → ((s : Deck) → SameBooks s (f s))
    → IsSilent (write_quietly fault f)
unfolding write_quietly
quiet_write-IsSilent none f p q = record { result = λ s. refl; cards = p; books = q }
quiet_write-IsSilent (some e) f p q = record {
  result = λ s. refl;
  cards = λ s. refl;
  books = SameBooks-IsPreorder.same;
}

pub office_same : {A : Type 0} (r : Result A × Office) (s : Deck) → SameCards s (on_office r s).1
office_same (x, o) s = same refl

pub office-IsKept :
    {A : Type 0} (m : Action Office A) → IsKept SameCards (λ (s : Deck). on_office (m s.office) s)
office-IsKept m = record { leaves = λ s. office_same (m s.office) s }

uncovered-IsKept : (e : Thrown) → IsKept SameCards (uncovered e)
uncovered-IsKept (insufficient_balance a r) = throw-IsKept _
uncovered-IsKept (ledger_imbalance d) = throw-IsKept _
uncovered-IsKept (prisma_known a m x) = throw-IsKept _
uncovered-IsKept (app_error a x) = throw-IsKept _
uncovered-IsKept (other x) = throw-IsKept _

module _ (run : Run) where
  pub tell-IsSilent :
      (user : String) (news : CardNews) (card : String) → IsSilent (tell run user news card)
  unfolding tell
  tell-IsSilent user news card =
      quiet_write-IsSilent _ _ (λ s. refl) (λ s. record { books = refl; office = refl })

  take_issuance-IsKept :
      (user key : String) (fee : ℤ) → IsKept SameCards (take_issuance run user key fee)
  unfolding take_issuance
  take_issuance-IsKept user key fee = record { leaves = λ s. same refl }

  pub charge-IsKept :
      (user key : String) (fee : ℤ) → IsKept SameCards (charge_issuance run user key fee)
  unfolding charge_issuance
  charge-IsKept user key fee = if-IsKept _ _ (leb_ℤ fee (pos 0)) (pure-IsKept tt) (
      bind-IsKept _ _ (catch-IsKept _ _ (take_issuance-IsKept user key fee) uncovered-IsKept)
        (λ x. pure-IsKept tt))

  keep_rule-IsSilent :
      (card : String) (limit : ℤ) (period : Period) (r : Result ProviderRule)
      → IsSilent (keep_rule run card limit period r)
  keep_rule-IsSilent card limit period (err e) = nothing-IsSilent
  keep_rule-IsSilent card limit period (ok promoted) =
      quiet_write-IsSilent _ _ (λ s. refl) (λ s. record { books = refl; office = refl })

  promote-IsSilent :
      (card : String) (limit : ℤ) (period : Period) (r : Result ProviderRule)
      → IsSilent (promote run card limit period r)
  promote-IsSilent card limit period (err e) = nothing-IsSilent
  promote-IsSilent card limit period (ok created) = keep_rule-IsSilent card limit period _

  pub attach-IsSilent :
      (card token : String) (limit : Option ℤ) (period : Period)
      → IsSilent (attach_velocity_rule run card token limit period)
  unfolding attach_velocity_rule
  attach-IsSilent card token none period = nothing-IsSilent
  attach-IsSilent card token (some limit) period = promote-IsSilent card limit period _

  pub ceiling-IsKept : (user : String) → IsKept SameCards (card_limit_for run user)
  unfolding card_limit_for
  ceiling-IsKept user = bind-IsKept _ _ (read-IsKept _ _) (λ key. office-IsKept _)
