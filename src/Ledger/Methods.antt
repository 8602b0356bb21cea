-- ===== src/Ledger/Methods.antt =====
-- The methods of LedgerService that move money (apps/api/src/ledger/ledger.service.ts): the
-- transaction bodies of Ledger/Movements.antt inside their retries and their `catch` blocks.
use tenzopay.Base.{ℕ, ℤ, pos, leb_ℤ, eqb_ℤ, String, ◌<>◌, if◌then◌else◌}
use tenzopay.Effects.{
  Thrown, insufficient_balance, ledger_imbalance, adjustment_is_zero, other, ok, Action, throw,
  try_catch, ◌>>=◌,
}
use tenzopay.Ledger.Books.{FeeType, Books}
use tenzopay.Ledger.Balances.{get_balance}
use tenzopay.Ledger.Movements.{
  Hold, credit_deposit_body, reverse_deposit_body, charge_fee_body, place_hold_body,
  release_hold_body, settle_authorization_body, credit_refund_body, post_adjustment_body,
}
use tenzopay.Ledger.Retry.{Interference, attempt, with_serializable_retry, resolve_duplicate}

-- What the database does during one call: around each attempt, and before the look-up in `catch`.
pub record Weather : Type 0 where
  pub around : ℕ → Interference Books
  pub later : Books → Books

-- `try { return await this.prisma.$transaction(body) } catch (err) { return this.resolveDuplicate(err, key) }`
unfoldable pub once : Weather → String → Action Books ℕ → Action Books ℕ
unfolding try_catch attempt resolve_duplicate
once w key body = try_catch (attempt (w.around 0) body) (resolve_duplicate w.later key)

unfoldable pub credit_deposit : Weather → String → String → ℤ → ℤ → String → Action Books ℕ
credit_deposit w user deposit_id amount fee currency =
    once w ("deposit:" <> deposit_id <> ":confirm")
      (credit_deposit_body user deposit_id amount fee currency)

unfoldable pub reverse_deposit : Weather → String → String → ℤ → ℤ → String → Action Books ℕ
reverse_deposit w user deposit_id amount fee currency =
    once w ("deposit:" <> deposit_id <> ":reverse")
      (reverse_deposit_body user deposit_id amount fee currency)

unfoldable pub release_hold : Weather → String → String → ℤ → String → Action Books ℕ
release_hold w user key amount currency = once w key (release_hold_body user key amount currency)

unfoldable pub settle_authorization :
    Weather → String → String → ℤ → ℤ → ℤ → String → Action Books ℕ
settle_authorization w user key held_amount settled fee currency =
    once w key (settle_authorization_body user key held_amount settled fee currency)

unfoldable pub credit_refund : Weather → String → String → ℤ → String → Action Books ℕ
credit_refund w user key amount currency = once w key (credit_refund_body user key amount currency)

-- The body at SERIALIZABLE, retried on conflicts.
unfoldable pub retried : {A : Type 0} → Weather → Action Books A → Action Books A
unfolding with_serializable_retry attempt
retried w body = with_serializable_retry (λ n. attempt (w.around n) body)

-- `if (err instanceof InsufficientBalanceError) throw err`
abbrev pub unless_insufficient : (Thrown → Action Books ℕ) → Thrown → Action Books ℕ
unless_insufficient handler (insufficient_balance available requested) =
    throw (insufficient_balance available requested)
unless_insufficient handler e = handler e

unfoldable pub charge_fee : Weather → String → String → ℤ → FeeType → String → Action Books ℕ
unfolding try_catch resolve_duplicate
charge_fee w user key amount type currency =
    if leb_ℤ amount (pos 0)
    then throw (other "A fee charge must be positive")
    else try_catch (retried w (charge_fee_body user key amount type currency))
        (unless_insufficient (resolve_duplicate w.later key))

abbrev pub report_winner : String → String → ℕ → Action Books Hold
report_winner user currency id b = (
  ok (record {
    ledger_transaction_id = id;
    available_after = (get_balance user currency b).available;
  }),
  b,
)

-- The `catch` of `placeHold`: the winner's id, and the balance as it now stands.
abbrev pub winning_hold : Weather → String → String → String → Thrown → Action Books Hold
winning_hold w user key currency e = resolve_duplicate w.later key e >>= report_winner user currency

unfoldable pub place_hold : Weather → String → String → ℤ → String → Action Books Hold
unfolding try_catch
place_hold w user key amount currency =
    try_catch (retried w (place_hold_body user key amount currency))
      (winning_hold w user key currency)

unfoldable pub post_adjustment : Weather → String → String → ℤ → String → Action Books ℕ
unfolding try_catch resolve_duplicate
post_adjustment w user key amount currency =
    if eqb_ℤ amount (pos 0)
    then throw (ledger_imbalance adjustment_is_zero)
    else try_catch (retried w (post_adjustment_body user key amount currency))
        (resolve_duplicate w.later key)
