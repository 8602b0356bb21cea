-- ===== src/Billing/Works.antt =====
-- The steps of a turn of `chargeDuePlans` (apps/api/src/billing/billing.service.ts) that always return, where
-- their queries work.
use tenzopay.Base.{
  ℕ, String, none, some, true, false, Bool, if◌then◌else◌, ◌≡◌, refl, ap, ◌∙◌, Option,
}
use tenzopay.Effects.{Thrown, ok, Action, continue, pure, ◌>>◌}
use tenzopay.Queries.{write, write_quietly}
use tenzopay.Billing.State
use tenzopay.Billing.State.{User, Firm, Turn, Instant, update_user, with_users, on_books}
use tenzopay.Billing.Charge.{
  retried, downgraded, is_dunned, tell, settle_dunning, drop_plan, keep_trying,
}

-- An action that returns `a` and leaves the books alone.
pub record Works {A : Type 0} (a : A) (m : Action Firm A) : Type 0 where
  pub runs : (s : Firm) → (t : Firm) × (m s ≡ (ok a, t)) × (t.books ≡ s.books)

pub then-Works :
    {A B : Type 0} (a : A) (b : B) (m : Action Firm A) (k : Action Firm B)
    → Works a m
    → Works b k
    → Works b (m >> k)
then-Works a b m k p q = record {
  runs = λ s.
      let (t, h, e) = p.runs s in
      let (u, g, f) = q.runs t in (u, ap (continue (λ x. k)) h ∙ g, f ∙ e);
}

write-Works :
    (fault : Option Thrown) (f : Firm → Firm)
    → fault ≡ none
    → ((s : Firm) → (f s).books ≡ s.books)
    → Works tt (write fault f)
unfolding write
write-Works fault f h e = record { runs = λ s. (f s, rw (h, write) refl, e s) }

quietly-Works :
    (fault : Option Thrown) (f : Firm → Firm)
    → ((s : Firm) → (f s).books ≡ s.books)
    → Works tt (write_quietly fault f)
unfolding write_quietly
quietly-Works none f e = record { runs = λ s. (f s, refl, e s) }
quietly-Works (some x) f e = record { runs = λ s. (s, refl, refl) }

pub tell-Works : (turn : Turn) (user title : String) → Works tt (tell turn user title)
unfolding tell
tell-Works turn user title = quietly-Works (turn.fault State.notify) _ (λ s. refl)

pub pure-Works : {A : Type 0} (a : A) → Works a (pure a)
pure-Works a = record { runs = λ s. (s, refl, refl) }

if-Works :
    {A : Type 0} (a : A) (b : Bool) (x y : Action Firm A)
    → Works a x
    → Works a y
    → Works a (if b then x else y)
if-Works a true x y p q = p
if-Works a false x y p q = q

module _ (turn : Turn) (u : User) where
  pub settle_dunning-Works :
      turn.fault State.clear_dunning ≡ none → Works tt (settle_dunning turn u)
  unfolding settle_dunning
  settle_dunning-Works h =
      if-Works tt (is_dunned u) _ _ (write-Works (turn.fault State.clear_dunning) _ h (λ s. refl))
        (pure-Works tt)

  pub drop_plan-Works :
      turn.fault State.downgrade ≡ none
      → turn.fault State.log_downgrade ≡ none
      → Works downgraded (drop_plan turn u)
  unfolding drop_plan
  drop_plan-Works h k =
      then-Works tt downgraded _ _
        (then-Works tt tt _ _
          (then-Works tt tt _ _ (write-Works (turn.fault State.downgrade) _ h (λ s. refl))
            (write-Works (turn.fault State.log_downgrade) _ k (λ s. refl)))
          (tell-Works turn u.id _))
        (pure-Works downgraded)

  pub keep_trying-Works :
      (now : ℕ) → turn.fault State.start_dunning ≡ none → Works retried (keep_trying turn now u)
  unfolding keep_trying
  keep_trying-Works now h =
      then-Works tt retried _ _
        (if-Works tt (is_dunned u) _ _ (pure-Works tt) (
          then-Works tt tt _ _ (write-Works (turn.fault State.start_dunning) _ h (λ s. refl))
            (tell-Works turn u.id _)))
        (pure-Works retried)
