-- ===== src/Deposits/Tests.antt =====
-- Runs of the methods of apps/api/src/deposits/deposits.service.ts.
use tenzopay.Base.{pos, ◌+ℤ◌, str_eq, none, some, true, false, [], ◌∷◌, inl, ◌≡◌, refl, arith}
use tenzopay.Effects.{ok}
use tenzopay.Ledger.Books.{find_transaction}
use tenzopay.Ledger.Methods.{Weather}
use tenzopay.Ledger.Wallet.{wallet_of, deposited, spend}
use tenzopay.Ledger.Samples.{stormy, stormy-IsHonest, funded, funded-IsValid}
use tenzopay.Fees.Rates.{DepositRates, deposit_fee, clamp, apply_bps}
use tenzopay.Deposits.State.{
  detected, confirmed, onchain, ethereum_mainnet, TokenTransfer, Deposit, Vault, Config, Run,
  network_eq, is_of, find_transfer, find_deposit,
}
use tenzopay.Deposits.Advance.{advance_confirmations, confirmed_in}
use tenzopay.Deposits.Record.{record_transfer}
use tenzopay.Deposits.Watch.{watch_credited_for_reorg}
use tenzopay.Deposits.Sound.{IsSound, confirm_key}
use tenzopay.Deposits.Carries.{Successor}
use tenzopay.Deposits.Reach.{recorded, watched, Course, start, next, Course-IsSound, Course-Carries}
use tenzopay.Deposits.Liveness.{IsDue, advance_confirmations-Credits}
use tenzopay.Deposits.SeenAgain.{record_transfer_again}

abbrev transfer : TokenTransfer
transfer = record {
  network = ethereum_mainnet;
  tx_hash = "0xt1";
  log_index = 4;
  to_address = "0xAB";
  contract_address = "0xUSDT";
  amount = pos 100000000;
}

-- The deposit behind the books of the ledger's samples.
abbrev first_deposit : Deposit
first_deposit = record {
  id = "d1";
  user_id = "u1";
  network = ethereum_mainnet;
  amount = pos 100000000;
  currency = "USDT";
  status = confirmed;
  source = onchain;
  tx_hash = some "0xt1";
  log_index = some 4;
  confirmations = 12;
  required_confirmations = 12;
  created_at = 0;
  confirmed_at = some 200000;
  ledger_transaction_id = some 0;
}

abbrev second_deposit : Deposit
second_deposit = record first_deposit {
  id = "d2";
  amount = pos 50000000;
  status = detected;
  tx_hash = some "0xt2";
  confirmations = 0;
  confirmed_at = none;
  ledger_transaction_id = none;
}

abbrev vault : Vault
vault = record {
  books = funded;
  deposits = second_deposit ∷ first_deposit ∷ [];
  wallets = "u1" ∷ [];
  addresses =
      record {
        id = "a1";
        network = ethereum_mainnet;
        address = "0xab";
        user_id = "u1";
        derivation_index = 0;
        is_demo = false;
        registered_with_provider = true;
      }
      ∷ [];
  observed = [];
  notifications = [];
}

abbrev config : Config
config = record {
  is_demo = false;
  usdt_contract = "0xusdt";
  min_amount = pos 1000000;
  confirmations = 12;
}

abbrev one_dollar : DepositRates
one_dollar = record { bps = pos 0; flat = pos 1000000; min = pos 0; max = pos 0 }

abbrev calm : Weather
calm = record { around = λ n. record { others = λ b. b; fault = none }; later = λ b. b }

abbrev calm_run : Run
calm_run = record {
  weather = calm;
  fault = λ q. none;
  confirmations = λ hash. ok (some 12);
  rates = ok one_dollar;
  now = 300000;
}

-- The node has lost every transaction, and the ledger's first attempt is aborted.
abbrev lost_run : Run
lost_run = record calm_run { weather = stormy; confirmations = λ hash. ok none }

vault-IsSound : IsSound vault
unfolding find_transaction str_eq
vault-IsSound = record {
  valid = funded-IsValid;
  backed = (
    record { posted = λ t h. cc (h); credited = λ h. cc (h); standing = λ t h. cc (h) },
    (record { posted = λ t h. h; credited = λ h. (0, refl); standing = λ t h. inl refl }, tt),
  );
}

abbrev recorded_again : Vault
recorded_again = (record_transfer config lost_run lost_run transfer onchain "d3" vault).1

course :
    Course vault (watch_credited_for_reorg config 300000 24 none (λ id. lost_run) recorded_again).1
course =
    next _
      (next recorded_again start (
        recorded config lost_run lost_run transfer onchain "d3" stormy-IsHonest stormy-IsHonest
          refl))
      (watched config 300000 24 none (λ id. lost_run) (λ id. stormy-IsHonest) refl)

Course-IsSound_example :
    IsSound (watch_credited_for_reorg config 300000 24 none (λ id. lost_run) recorded_again).1
Course-IsSound_example = Course-IsSound vault _ vault-IsSound course

Course-Carries_example :
    let t = (watch_credited_for_reorg config 300000 24 none (λ id. lost_run) recorded_again).1 in
    (e : Deposit) × (find_deposit "d2" t.deposits ≡ some e) × Successor second_deposit e
unfolding find_deposit str_eq
Course-Carries_example = Course-Carries vault _ "d2" second_deposit course refl

record_transfer_again_example :
    ((record_transfer config lost_run lost_run transfer onchain "d3" vault).1.books ≡ funded)
    × ((record_transfer config lost_run lost_run transfer onchain "d3" vault).1.deposits
        ≡ vault.deposits)
unfolding find_transfer is_of network_eq find_deposit str_eq
record_transfer_again_example =
    record_transfer_again config lost_run lost_run transfer onchain "d3" first_deposit vault refl
      refl refl

second-IsDue : IsDue calm_run one_dollar 12 "0xt2" second_deposit vault
unfolding find_deposit find_transaction str_eq deposit_fee clamp apply_bps ◌+ℤ◌
second-IsDue = record {
  found = refl;
  hashed = refl;
  live = refl;
  unlinked = refl;
  seen = refl;
  deep = omega arith;
  priced = refl;
  fee_kept = omega arith;
  fee_less = omega arith;
  unposted = refl;
  row_query = refl;
  credit_query = refl;
  mark_query = refl;
  calm = record { alone = refl; runs = refl };
}

advance_confirmations-Credits_example :
    let fee = deposit_fee one_dollar (pos 50000000) in
    let r = advance_confirmations calm_run "d2" vault in
    (r.0 ≡ ok tt)
    × (confirmed_in (find_deposit "d2" r.1.deposits) ≡ true)
    × (find_transaction (confirm_key "d2") r.1.books.transactions ≡ some 1)
    × (wallet_of "u1" "USDT" r.1.books
        ≡ spend (deposited "d2" (pos 50000000) fee) (wallet_of "u1" "USDT" funded))
advance_confirmations-Credits_example =
    advance_confirmations-Credits calm_run one_dollar 12 "0xt2" second_deposit vault second-IsDue
      funded-IsValid
