-- ===== src/Queries.antt =====
-- A query of the database outside a transaction of the ledger: it may fail, with the error that its
-- argument gives, and then it has done nothing (the calls of `this.prisma` in apps/api/src).
use tenzopay.Base.{Option, none, some, ◌≡◌, refl}
use tenzopay.Effects.{Thrown, Result, ok, err, Action, ◌>>=◌}

unfoldable pub read : {S A : Type 0} → Option Thrown → (S → A) → Action S A
read none f s = (ok (f s), s)
read (some e) f s = (err e, s)

unfoldable pub write : {S : Type 0} → Option Thrown → (S → S) → Action S (Unit {0})
write none f s = (ok tt, f s)
write (some e) f s = (err e, s)

-- `.catch(() => undefined)`
unfoldable pub write_quietly : {S : Type 0} → Option Thrown → (S → S) → Action S (Unit {0})
write_quietly none f s = (ok tt, f s)
write_quietly (some e) f s = (ok tt, s)

-- What follows a result that is known.
abbrev pub with_result : {S A B : Type 0} → Result A → (A → Action S B) → Action S B
with_result (ok a) k s = k a s
with_result (err e) k s = (err e, s)

module _ {S A B : Type 0} (P : Result B × S → Type 0) (s : S) where
  pub read-P :
      (fault : Option Thrown) (f : S → A) (k : A → Action S B)
      → ((e : Thrown) → P (err e, s))
      → P (k (f s) s)
      → P ((read fault f >>= k) s)
  unfolding read
  read-P none f k on_error p = p
  read-P (some e) f k on_error p = on_error e

  pub with_result-P :
      (r : Result A) (k : A → Action S B)
      → ((e : Thrown) → P (err e, s))
      → ((a : A) → r ≡ ok a → P (k a s))
      → P (with_result r k s)
  with_result-P (ok a) k on_error p = p a refl
  with_result-P (err e) k on_error p = on_error e

module _ {S B : Type 0} (P : Result B × S → Type 0) (s : S) where
  pub write-P :
      (fault : Option Thrown) (f : S → S) (k : Unit {0} → Action S B)
      → ((e : Thrown) → P (err e, s))
      → P (k tt (f s))
      → P ((write fault f >>= k) s)
  unfolding write
  write-P none f k on_error p = p
  write-P (some e) f k on_error p = on_error e

module _ {S B : Type 0} (fault : Option Thrown) where
  pub read_works :
      {A : Type 0} (f : S → A) (k : A → Action S B) (s : S)
      → fault ≡ none
      → (read fault f >>= k) s ≡ k (f s) s
  unfolding read
  read_works f k s h = rw (h, read)

  pub write_works :
      (f : S → S) (k : Unit {0} → Action S B) (s : S)
      → fault ≡ none
      → (write fault f >>= k) s ≡ k tt (f s)
  unfolding write
  write_works f k s h = rw (h, write)

pub with_result_works :
    {S A B : Type 0} (r : Result A) (k : A → Action S B) (a : A) (s : S)
    → r ≡ ok a
    → with_result r k s ≡ k a s
with_result_works r k a s h = rw h refl

pub write_quietly-P :
    {S : Type 0} (P : Result (Unit {0}) × S → Type 0) (fault : Option Thrown) (f : S → S) (s : S)
    → P (ok tt, s)
    → P (ok tt, f s)
    → P (write_quietly fault f s)
unfolding write_quietly
write_quietly-P P none f s p q = q
write_quietly-P P (some e) f s p q = p
