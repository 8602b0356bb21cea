-- ===== src/Ledger/Calls.antt =====
-- The money methods of apps/api/src/ledger/ledger.service.ts as one: a call for each movement.
use tenzopay.Base.{ℕ, String}
use tenzopay.Effects.{Result, ok, err, Action, continue}
use tenzopay.Ledger.Books.{Books}
use tenzopay.Ledger.Movements.{Hold}
use tenzopay.Ledger.Methods.{
  Weather, credit_deposit, reverse_deposit, charge_fee, place_hold, release_hold,
  settle_authorization, credit_refund, post_adjustment,
}
use tenzopay.Ledger.Invariant.{IsValid}
use tenzopay.Ledger.CallSafety.{IsHonest, Final}
use tenzopay.Ledger.Wallet.{
  Movement, deposited, reversed, charged, held, released, refunded, settled, adjusted, key_of,
}
use tenzopay.Ledger.ExactlyOnce.{
  credit_deposit-Final, reverse_deposit-Final, charge_fee-Final, place_hold-Final,
  release_hold-Final, settle_authorization-Final, credit_refund-Final, post_adjustment-Final,
}

abbrev hold_id : Hold → Action Books ℕ
hold_id h b = (ok h.ledger_transaction_id, b)

-- The method that makes the movement.
unfoldable pub call : Weather → Movement → String → String → Action Books ℕ
call w (deposited id amount fee) user currency b = credit_deposit w user id amount fee currency b
call w (reversed id amount fee) user currency b = reverse_deposit w user id amount fee currency b
call w (charged key amount type) user currency b = charge_fee w user key amount type currency b
call w (held key amount) user currency b =
    continue hold_id (place_hold w user key amount currency b)
call w (released key amount) user currency b = release_hold w user key amount currency b
call w (refunded key amount) user currency b = credit_refund w user key amount currency b
call w (settled key held_amount amount fee) user currency b =
    settle_authorization w user key held_amount amount fee currency b
call w (adjusted key amount) user currency b = post_adjustment w user key amount currency b

hold_id-Final :
    (w : Weather) (b : Books) (key : String) (r : Result Hold × Books)
    → Final {A = Hold} w b key (λ h. h.ledger_transaction_id) r
    → Final w b key (λ n. n) (continue hold_id r)
hold_id-Final w b key (ok h, c) g = g
hold_id-Final w b key (err e, c) t = t

-- A call of any money method, for any arguments and in valid books, under any retries, aborts and
-- writes of others that keep the books valid and undo no posting: if it returns, its idempotency key
-- is posted under the returned id, in valid books that still have all that was posted; if it throws,
-- only others have written.
pub call-Final :
    (w : Weather) (user currency : String) (b : Books)
    → IsHonest w
    → IsValid b
    → (m : Movement) → Final w b (key_of m) (λ n. n) (call w m user currency b)
unfolding call key_of
call-Final w user currency b h v (deposited id amount fee) =
    credit_deposit-Final w h b v user id amount fee currency
call-Final w user currency b h v (reversed id amount fee) =
    reverse_deposit-Final w h b v user id amount fee currency
call-Final w user currency b h v (charged key amount type) =
    charge_fee-Final w h b v user key amount type currency
call-Final w user currency b h v (held key amount) =
    hold_id-Final w b key (place_hold w user key amount currency b)
      (place_hold-Final w h b v user key amount currency)
call-Final w user currency b h v (released key amount) =
    release_hold-Final w h b v user key amount currency
call-Final w user currency b h v (refunded key amount) =
    credit_refund-Final w h b v user key amount currency
call-Final w user currency b h v (settled key held_amount amount fee) =
    settle_authorization-Final w h b v user key held_amount amount fee currency
call-Final w user currency b h v (adjusted key amount) =
    post_adjustment-Final w h b v user key amount currency
