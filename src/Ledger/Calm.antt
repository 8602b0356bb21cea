-- ===== src/Ledger/Calm.antt =====
-- The methods of apps/api/src/ledger/ledger.service.ts where nobody interferes: one attempt of the body.
use tenzopay.Base.{ℕ, ℤ, pos, leb_ℤ, String, none, false, ◌≡◌, refl}
use tenzopay.Effects.{
  Thrown, insufficient_balance, ok, err, Action, transaction, try_catch, keep_if_ok,
}
use tenzopay.Ledger.Books.{FeeType, Books}
use tenzopay.Ledger.Movements.{charge_fee_body}
use tenzopay.Ledger.Retry.{
  attempt, after_attempt, retry_loop, with_serializable_retry, is_serialization_conflict,
  conflict_message,
}
use tenzopay.Ledger.Methods.{Weather, once, retried, charge_fee}

-- Nobody writes before the first attempt, and it is not aborted.
pub record IsCalm (w : Weather) (b : Books) : Type 0 where
  pub alone : (w.around 0).others b ≡ b
  pub runs : (w.around 0).fault ≡ none

module _ {A : Type 0} (w : Weather) (body : Action Books A) (b : Books) (calm : IsCalm w b) where
  attempt_calm : attempt (w.around 0) body b ≡ keep_if_ok b (body b)
  unfolding attempt transaction
  attempt_calm = rw (calm.runs, attempt, transaction) (rw calm.alone refl)

  pub retried_calm : (a : A) (c : Books) → body b ≡ (ok a, c) → retried w body b ≡ (ok a, c)
  unfolding retried with_serializable_retry retry_loop
  retried_calm a c h = rw (attempt_calm, h) refl

  pub retried_refused :
      (e : Thrown) (c : Books)
      → body b ≡ (err e, c)
      → is_serialization_conflict e ≡ false
      → retried w body b ≡ (err e, b)
  unfolding retried with_serializable_retry retry_loop
  retried_refused e c h k = rw (attempt_calm, h, k, after_attempt) refl

pub once_calm :
    (w : Weather) (key : String) (body : Action Books ℕ) (b c : Books) (n : ℕ)
    → IsCalm w b
    → body b ≡ (ok n, c)
    → once w key body b ≡ (ok n, c)
unfolding once try_catch
once_calm w key body b c n calm h = rw (attempt_calm w body b calm, h) refl

insufficient_is_final : (x y : ℤ) → is_serialization_conflict (insufficient_balance x y) ≡ false
unfolding is_serialization_conflict conflict_message
insufficient_is_final x y = refl

module _ (w : Weather) (user key : String) (amount : ℤ) (type : FeeType) (currency : String)
    (b : Books) (calm : IsCalm w b) (positive : leb_ℤ amount (pos 0) ≡ false) where
  pub charge_fee_calm :
      (n : ℕ) (c : Books)
      → charge_fee_body user key amount type currency b ≡ (ok n, c)
      → charge_fee w user key amount type currency b ≡ (ok n, c)
  unfolding charge_fee try_catch
  charge_fee_calm n c h =
      rw positive
        (rw (retried_calm w (charge_fee_body user key amount type currency) b calm n c h) refl)

  -- A balance that does not cover the charge: the error is passed on, and nothing is written.
  pub charge_fee_short :
      (x y : ℤ) (c : Books)
      → charge_fee_body user key amount type currency b ≡ (err (insufficient_balance x y), c)
      → charge_fee w user key amount type currency b ≡ (err (insufficient_balance x y), b)
  unfolding charge_fee try_catch
  charge_fee_short x y c h = rw positive (
      rw
        (retried_refused w (charge_fee_body user key amount type currency) b calm
          (insufficient_balance x y) c h (insufficient_is_final x y))
        refl)
