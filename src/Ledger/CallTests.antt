-- ===== src/Ledger/CallTests.antt =====
-- Runs of the calls of apps/api/src/ledger/ledger.service.ts through conflicts.
use tenzopay.Base.{str_eq, ℕ, pos, ◌≡◌, refl, arith}
use tenzopay.Effects.{ok, err}
use tenzopay.Base.{true}
use tenzopay.Ledger.Samples.{conflict, stormy, stormy-IsHonest, funded, funded-IsValid}
use tenzopay.Ledger.Retry.{is_serialization_conflict, with_serializable_retry}
use tenzopay.Ledger.RetrySafety.{Tried, start, again, retry-Ends, retry_exhausted}
use tenzopay.Ledger.CallSafety.{Final}
use tenzopay.Effects.{Action}
use tenzopay.Ledger.Wallet.{held, key_of}
use tenzopay.Ledger.Calls.{call, call-Final}
use tenzopay.Base.{if◌then◌else◌, ltb, suc, ◌<◌}

call-Final_example :
    Final stormy funded
      (key_of (held "auth:1" (pos 30000000)))
      (λ n. n)
      (call stormy (held "auth:1" (pos 30000000)) "u1" "USDT" funded)
call-Final_example =
    call-Final stormy "u1" "USDT" funded stormy-IsHonest funded-IsValid
      (held "auth:1" (pos 30000000))

is_conflict : is_serialization_conflict conflict ≡ true
unfolding is_serialization_conflict str_eq
is_conflict = refl

-- An operation that meets conflicts before the attempt `n`, and then returns.
abbrev flaky : ℕ → ℕ → Action ℕ ℕ
flaky limit n s = if ltb n limit then (err conflict, suc s) else (ok n, s)

two_tries : Tried (flaky 2) 0 2 2
two_tries = again conflict 2 (again conflict 1 start refl is_conflict) refl is_conflict

retry-Ends_example : with_serializable_retry (flaky 2) 0 ≡ (ok 2, 2)
retry-Ends_example = retry-Ends (flaky 2) 2 0 (ok 2, 2) two_tries (omega arith) refl tt

step : (n : ℕ) → n < 9 → Tried (flaky 9) 0 n n → Tried (flaky 9) 0 (suc n) (suc n)
step n h t = again conflict (suc n) t (ground arith) is_conflict

seven_tries : Tried (flaky 9) 0 7 7
seven_tries = step 6 (omega arith) (
    step 5 (omega arith) (
      step 4 (omega arith) (
        step 3 (omega arith)
          (step 2 (omega arith) (step 1 (omega arith) (step 0 (omega arith) start))))))

retry_exhausted_run : with_serializable_retry (flaky 9) 0 ≡ (err conflict, 8)
retry_exhausted_run = retry_exhausted (flaky 9) 0 8 conflict seven_tries refl is_conflict
