-- ===== src/Actions.antt =====
-- Actions that relate the state before to the state after by a preorder, however they end, and how they
-- are put together (the `async` methods of apps/api/src).
use tenzopay.Base.{Option, none, some, Bool, true, false, if◌then◌else◌}
use tenzopay.Effects.{
  Thrown, Result, ok, err, Action, pure, throw, continue, after_catch, try_catch, ◌>>=◌,
}
use tenzopay.Queries.{read, write, write_quietly, with_result}

pub record IsPreorder {S : Type 0} (R : S → S → Type 0) : Type 0 where
  pub same : (s : S) → R s s
  pub chain : (s t u : S) → R s t → R t u → R s u

-- The state that the action leaves is related to the state that it finds.
pub record IsKept {S A : Type 0} (R : S → S → Type 0) (m : Action S A) : Type 0 where
  pub leaves : (s : S) → R s (m s).1

module _ {S : Type 0} {R : S → S → Type 0} ⦃preorder : IsPreorder R⦄ where
  pub continue-Kept :
      {A B : Type 0} (s : S) (k : A → Action S B) (r : Result A × S)
      → R s r.1
      → ((a : A) → IsKept R (k a))
      → R s (continue k r).1
  continue-Kept s k (ok a, t) v next = preorder.chain s t _ v ((next a).leaves t)
  continue-Kept s k (err e, t) v next = v

  pub bind-IsKept :
      {A B : Type 0} (m : Action S A) (k : A → Action S B)
      → IsKept R m
      → ((a : A) → IsKept R (k a))
      → IsKept R (m >>= k)
  bind-IsKept m k p next = record { leaves = λ s. continue-Kept s k (m s) (p.leaves s) next }

  pub pure-IsKept : {A : Type 0} (a : A) → IsKept R (pure {S = S} a)
  pure-IsKept a = record { leaves = preorder.same }

  pub throw-IsKept : {A : Type 0} (e : Thrown) → IsKept R (throw {S = S} {A = A} e)
  throw-IsKept e = record { leaves = preorder.same }

  pub read-IsKept : {A : Type 0} (fault : Option Thrown) (f : S → A) → IsKept R (read fault f)
  unfolding read
  read-IsKept none f = record { leaves = preorder.same }
  read-IsKept (some e) f = record { leaves = preorder.same }

  pub write-IsKept :
      (fault : Option Thrown) (f : S → S) → ((s : S) → R s (f s)) → IsKept R (write fault f)
  unfolding write
  write-IsKept none f p = record { leaves = p }
  write-IsKept (some e) f p = record { leaves = preorder.same }

  pub write_quietly-IsKept :
      (fault : Option Thrown) (f : S → S) → ((s : S) → R s (f s)) → IsKept R (write_quietly fault f)
  unfolding write_quietly
  write_quietly-IsKept none f p = record { leaves = p }
  write_quietly-IsKept (some e) f p = record { leaves = preorder.same }

  pub with_result-IsKept :
      {A B : Type 0} (r : Result A) (k : A → Action S B)
      → ((a : A) → IsKept R (k a))
      → IsKept R (with_result r k)
  with_result-IsKept (ok a) k p = p a
  with_result-IsKept (err e) k p = record { leaves = preorder.same }

  caught :
      {A : Type 0} (s : S) (handler : Thrown → Action S A) (r : Result A × S)
      → R s r.1
      → ((e : Thrown) → IsKept R (handler e))
      → R s (after_catch handler r).1
  caught s handler (ok a, t) v k = v
  caught s handler (err e, t) v k = preorder.chain s t _ v ((k e).leaves t)

  pub catch-IsKept :
      {A : Type 0} (body : Action S A) (handler : Thrown → Action S A)
      → IsKept R body
      → ((e : Thrown) → IsKept R (handler e))
      → IsKept R (try_catch body handler)
  unfolding try_catch
  catch-IsKept body handler p k = record { leaves = λ s. caught s handler (body s) (p.leaves s) k }

pub if-IsKept :
    {S A : Type 0} {R : S → S → Type 0} (x y : Action S A) (b : Bool)
    → IsKept R x
    → IsKept R y
    → IsKept R (if b then x else y)
if-IsKept x y true p q = p
if-IsKept x y false p q = q
