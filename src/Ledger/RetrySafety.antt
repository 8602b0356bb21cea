-- ===== src/Ledger/RetrySafety.antt =====
-- The retry loop: which attempt it ends with, and what holds of the call as a whole under any
-- interference that itself keeps the books.
use tenzopay.Base.{ℕ, suc, ◌+◌, ◌-◌, ◌<◌, true, false, ◌≡◌, ◌∙◌, ap, arith}
use tenzopay.Effects.{Thrown, other, Result, ok, err, Action}
use tenzopay.Ledger.Retry.{
  is_serialization_conflict, after_attempt, retry_loop, with_serializable_retry,
}

more : (m left : ℕ) → suc m + left ≡ m + suc left
more m left = omega arith

split_eight : (n : ℕ) → n < 8 → 8 ≡ n + suc (7 - n)
split_eight n h = omega arith

-- The first `n` attempts from `s` all met a conflict, and left the store `s'`.
pub data Tried {S A : Type 0} (operation : ℕ → Action S A) (s : S) : ℕ → S → Type 0 where
  start : Tried operation s 0 s
  again :
      {n : ℕ} {s' : S} (e : Thrown) (t : S)
      → Tried operation s n s'
      → operation n s' ≡ (err e, t)
      → is_serialization_conflict e ≡ true
      → Tried operation s (suc n) t

-- How an attempt can end the loop.
abbrev pub Ends : {S A : Type 0} → Result A × S → Type 0
Ends (ok a, s) = Unit
Ends (err e, s) = is_serialization_conflict e ≡ false

module _ {S A : Type 0} (operation : ℕ → Action S A) where
  loop_step :
      (left n : ℕ) (last e : Thrown) (s t : S)
      → operation n s ≡ (err e, t)
      → is_serialization_conflict e ≡ true
      → retry_loop (suc left) n operation last s ≡ retry_loop left (suc n) operation e t
  unfolding retry_loop
  loop_step left n last e s t h c = rw h (rw (c, after_attempt))

  loop-Ends :
      (left n : ℕ) (last : Thrown) (s : S) (r : Result A × S)
      → operation n s ≡ r
      → Ends r
      → retry_loop (suc left) n operation last s ≡ r
  unfolding retry_loop
  loop-Ends left n last s (ok a, t) h c = rw h
  loop-Ends left n last s (err e, t) h c = rw h (rw (c, after_attempt))

  loop-Tried :
      (s : S) (left n : ℕ) {s' : S}
      → Tried operation s n s'
      → (last : Thrown) × (retry_loop (n + left) 0 operation (other "undefined") s
          ≡ retry_loop left n operation last s')
  loop-Tried s left n start =
      (other "undefined", ap (λ k. retry_loop k 0 operation (other "undefined") s) (omega arith))
  loop-Tried s left n (again {n = m} {s' = s'} e t tried h c) =
      let (last, ih) = loop-Tried s (suc left) m tried in
      (
        e,
        ap (λ k. retry_loop k 0 operation (other "undefined") s) (more m left)
            ∙ ih
            ∙ loop_step left m last e s' t h c,
      )

  -- If the first n attempts, n below eight, meet a conflict and the next one returns or throws
  -- what is no conflict, then the call ends as that attempt does.
  pub retry-Ends :
      (n : ℕ) (s : S) {s' : S} (r : Result A × S)
      → Tried operation s n s'
      → n < 8
      → operation n s' ≡ r
      → Ends r
      → with_serializable_retry operation s ≡ r
  unfolding with_serializable_retry
  retry-Ends n s {s'} r tried few h ends =
      let (last, e) = loop-Tried s (suc (7 - n)) n tried in
      ap (λ k. retry_loop k 0 operation (other "undefined") s) (split_eight n few)
      ∙ e
      ∙ loop-Ends (7 - n) n last s' r h ends

  -- After eight attempts that all meet a conflict the call throws the last conflict.
  pub retry_exhausted :
      (s t : S) (e : Thrown) {s' : S}
      → Tried operation s 7 s'
      → operation 7 s' ≡ (err e, t)
      → is_serialization_conflict e ≡ true
      → with_serializable_retry operation s ≡ (err e, t)
  unfolding with_serializable_retry retry_loop
  retry_exhausted s t e {s'} tried h c =
      let (last, eq) = loop-Tried s 1 7 tried in eq ∙ loop_step 0 7 last e s' t h c
