-- ===== src/Effects.antt =====
-- What a method may throw, and a method that reads and writes a store (apps/api/src/common/errors.ts
-- and the Prisma client's interactive transactions).
use tenzopay.Base.{ℤ, String, Option, Bool, true, false, ◌≡◌, refl, ◌⊎◌, inl, inr}

-- The `detail` of a LedgerImbalanceError, which is logged and never sent to a client.
pub data ImbalanceDetail : Type 0 where
  needs_two_entries : ImbalanceDetail
  amount_not_positive : ImbalanceDetail
  does_not_balance : ℤ → ImbalanceDetail
  adjustment_is_zero : ImbalanceDetail

-- The errors that the modelled methods throw or test for. `prisma_known` is Prisma's
-- PrismaClientKnownRequestError with its `code`, its `meta.code` and its `message`; `other` is any
-- other `Error` with its message; `app_error` is an AppError that only its `code` and `message` tell
-- apart (NotFoundError, ForbiddenError, ValidationError, ...).
pub data Thrown : Type 0 where
  insufficient_balance : ℤ → ℤ → Thrown
  ledger_imbalance : ImbalanceDetail → Thrown
  prisma_known : String → Option String → String → Thrown
  app_error : String → String → Thrown
  other : String → Thrown

pub data Result {ℓ} (A : Type ℓ) : Type ℓ where
  ok : A → Result A
  err : Thrown → Result A

-- An `async` method: what was written before a throw stays written.
abbrev pub Action {ℓ} : Type ℓ → Type ℓ → Type ℓ
Action S A = S → Result A × S

module _ {ℓ} {S A : Type ℓ} where
  abbrev pub pure : A → Action S A
  pure a s = (ok a, s)

  abbrev pub throw : Thrown → Action S A
  throw e s = (err e, s)

  -- `prisma.$transaction(body)`: a throw undoes the writes of the body.
  abbrev pub keep_if_ok : S → Result A × S → Result A × S
  keep_if_ok s (ok a, s') = (ok a, s')
  keep_if_ok s (err e, _) = (err e, s)

  unfoldable pub transaction : Action S A → Action S A
  transaction body s = keep_if_ok s (body s)

  abbrev pub after_catch : (Thrown → Action S A) → Result A × S → Result A × S
  after_catch handler (ok a, s') = (ok a, s')
  after_catch handler (err e, s') = handler e s'

  -- `try { body } catch (err) { handler(err) }`
  unfoldable pub try_catch : Action S A → (Thrown → Action S A) → Action S A
  try_catch body handler s = after_catch handler (body s)

module _ {ℓ} {S A B : Type ℓ} where
  abbrev pub continue : (A → Action S B) → Result A × S → Result B × S
  continue f (ok a, s) = f a s
  continue f (err e, s) = (err e, s)

infixl 5 ◌>>=◌ ◌>>◌
abbrev pub ◌>>=◌ {ℓ} : {S A B : Type ℓ} → Action S A → (A → Action S B) → Action S B
◌>>=◌ m f s = continue f (m s)

abbrev pub ◌>>◌ {ℓ} : {S A B : Type ℓ} → Action S A → Action S B → Action S B
m >> k = m >>= λ _. k

abbrev pub throw_if : {S : Type 0} → Bool → Thrown → Action S Unit
throw_if true e s = (err e, s)
throw_if false e s = (ok tt, s)

pub Result-cases {ℓ} :
    {A : Type ℓ} (r : Result A) → ((a : A) × (r ≡ ok a)) ⊎ ((e : Thrown) × (r ≡ err e))
Result-cases (ok a) = inl (a, refl)
Result-cases (err e) = inr (e, refl)
