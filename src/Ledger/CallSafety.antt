-- ===== src/Ledger/CallSafety.antt =====
-- A call of a money method as a whole: retries, aborts and duplicates included.
use tenzopay.Base.{
  ℕ, zero, suc, String, none, some, Option-cases, Bool-cases, inl, inr, ◌⊎◌, ◌≡◌, refl, subst,
  arith,
}
use tenzopay.Effects.{Thrown, other, Result, ok, err, Action, keep_if_ok, after_catch}
use tenzopay.Ledger.Books.{Books, find_transaction}
use tenzopay.Ledger.Retry.{
  is_serialization_conflict, Interference, attempt, after_attempt, retry_loop, is_unique_violation,
  resolve_duplicate,
}
use tenzopay.Ledger.Methods.{Weather, once, retried}
use tenzopay.Ledger.Invariant.{IsValid}
use tenzopay.Ledger.Safety.{Extends, Extends-refl, Extends-trans, Good, Keeps}

resolve_duplicate_cases :
    (later : Books → Books) (key : String) (e : Thrown) (c : Books)
    → (resolve_duplicate later key e c ≡ (err e, later c))
      ⊎ ((id : ℕ) × (find_transaction key (later c).transactions ≡ some id)
          × (resolve_duplicate later key e c ≡ (ok id, later c)))
unfolding resolve_duplicate
resolve_duplicate_cases later key e c = elim (Bool-cases (is_unique_violation e)) [
  | inr t ↦ inl (ground arith)
  | inl t ↦ elim (Option-cases (find_transaction key (later c).transactions)) [
    | inl f ↦ inl (ground arith)
    | inr (id, f) ↦ inr (id, f, ground arith)
  ]
]

module _ {A : Type 0} (i : Interference Books) (body : Action Books A) (c : Books) where
  attempt_runs : i.fault ≡ none → attempt i body c ≡ keep_if_ok (i.others c) (body (i.others c))
  unfolding attempt
  attempt_runs h = rw (h, attempt)

  attempt_aborts : (e : Thrown) → i.fault ≡ some e → attempt i body c ≡ (err e, i.others c)
  unfolding attempt
  attempt_aborts e h = rw (h, attempt)

-- What other connections do keeps the invariant, and undoes no posting.
pub record Honest (f : Books → Books) : Type 0 where
  pub valid : (b : Books) → IsValid b → IsValid (f b)
  pub extends : (b : Books) → IsValid b → Extends b (f b)

pub record IsHonest (w : Weather) : Type 0 where
  pub around : (n : ℕ) → Honest (w.around n).others
  pub later : Honest w.later

-- Only others have written.
pub data Drift (w : Weather) (b : Books) : Books → Type 0 where
  still : Drift w b b
  before : {c : Books} (n : ℕ) (d : Books) → Drift w b c → (w.around n).others c ≡ d → Drift w b d
  at_catch : {c : Books} (d : Books) → Drift w b c → w.later c ≡ d → Drift w b d

pub record Drifted (b c : Books) : Type 0 where
  pub valid : IsValid c
  pub extends : Extends b c

-- How a call ends: with its key posted under the id that it returns, or with nothing of its own written.
abbrev pub Final : {A : Type 0} → Weather → Books → String → (A → ℕ) → Result A × Books → Type 0
Final w b key id_of (ok a, b') = Good b key (id_of a) b'
Final w b key id_of (err e, b') = Drift w b b'

module _ (w : Weather) (honest : IsHonest w) (b : Books) (v : IsValid b) where
  pub drifted : {c : Books} → Drift w b c → Drifted b c
  drifted still = record { valid = v; extends = Extends-refl b }
  drifted (before {c = c} n d t e) =
      let i = drifted t in
      subst (Drifted b) e (record {
        valid = (honest.around n).valid c i.valid;
        extends = Extends-trans i.extends ((honest.around n).extends c i.valid);
      })
  drifted (at_catch {c = c} d t e) =
      let i = drifted t in
      subst (Drifted b) e (record {
        valid = honest.later.valid c i.valid;
        extends = Extends-trans i.extends (honest.later.extends c i.valid);
      })

  module _ (key : String) where
    -- The look-up of the key in `catch`.
    pub found-Final :
        {c : Books} (e : Thrown)
        → Drift w b c
        → Final w b key (λ n. n) (resolve_duplicate w.later key e c)
    found-Final {c} e t =
        let after = at_catch (w.later c) t refl in
        elim (resolve_duplicate_cases w.later key e c) [
          | inl h ↦ rw h after
          | inr (id, found, h) ↦ rw h (record {
            valid = (drifted after).valid;
            extends = (drifted after).extends;
            posted = found;
          })
        ]

    module _ {A : Type 0} (id_of : A → ℕ) (body : Action Books A)
        (keeps : (c : Books) → IsValid c → Keeps c key id_of (body c)) where
      kept-Final :
          {c : Books} (r : Result A × Books)
          → Drift w b c
          → Keeps c key id_of r
          → Final w b key id_of (keep_if_ok c r)
      kept-Final (ok a, b') t g = record {
        valid = g.valid;
        extends = Extends-trans (drifted t).extends g.extends;
        posted = g.posted;
      }
      kept-Final (err e, b') t g = t

      attempt-Final :
          (n : ℕ) {c : Books} → Drift w b c → Final w b key id_of (attempt (w.around n) body c)
      attempt-Final n {c} t =
          let i = w.around n in
          let t' = before n (i.others c) t refl in
          elim (Option-cases i.fault) [
            | inl h ↦
                rw (attempt_runs i body c h)
                  (kept-Final (body (i.others c)) t' (keeps (i.others c) (drifted t').valid))
            | inr (e, h) ↦ rw (attempt_aborts i body c e h) t'
          ]

      after-Final :
          (r : Result A × Books) (next : Thrown → Books → Result A × Books)
          → Final w b key id_of r
          → ((e : Thrown) (c : Books) → Drift w b c → Final w b key id_of (next e c))
          → Final w b key id_of (after_attempt r next)
      after-Final (ok a, c) next g more = g
      after-Final (err e, c) next t more = elim (Bool-cases (is_serialization_conflict e)) [
        | inl h ↦ rw (h, after_attempt) (more e c t)
        | inr h ↦ rw (h, after_attempt) t
      ]

      loop-Final :
          (left n : ℕ) (last : Thrown) {c : Books}
          → Drift w b c
          → Final w b key id_of (retry_loop left n (λ k. attempt (w.around k) body) last c)
      unfolding retry_loop
      loop-Final zero n last t = t
      loop-Final (suc left) n last {c} t =
          after-Final _ _ (attempt-Final n t) (λ e c' t'. loop-Final left (suc n) e t')

      pub retried-Final : Final w b key id_of (retried w body b)
      unfolding retried
      retried-Final = loop-Final 8 0 (other "undefined") still

      -- A `catch` that is handed the error and what others have left.
      pub caught-Final :
          (r : Result A × Books) (handler : Thrown → Action Books A)
          → Final w b key id_of r
          → ((e : Thrown) (c : Books) → Drift w b c → Final w b key id_of (handler e c))
          → Final w b key id_of (after_catch handler r)
      caught-Final (ok a, c) handler g more = g
      caught-Final (err e, c) handler t more = more e c t

    pub once-Final :
        (body : Action Books ℕ)
        → ((c : Books) → IsValid c → Keeps c key (λ n. n) (body c))
        → Final w b key (λ n. n) (once w key body b)
    unfolding once
    once-Final body keeps =
        caught-Final (λ n. n) body keeps _ _ (attempt-Final (λ n. n) body keeps 0 still)
          (λ e c t. found-Final e t)
