-- ===== src/Webhooks/Alchemy.antt =====
-- `processAlchemy` of apps/api/src/webhooks/webhooks.service.ts: a report of the chain becomes transfers.
-- Addresses are put in lower case where they are compared, and the number of a log is the one that
-- `Number` reads; block numbers are only read, since nothing decides on them.
use tenzopay.Base.{
  ℕ, suc, ℤ, String, lower_codes, codes_eq, Option, none, some, Bool, if◌then◌else◌, List, [], ◌∷◌,
}
use tenzopay.Effects.{other, Result, ok, err, Action, pure, ◌>>◌}
use tenzopay.Queries.{with_result}
use tenzopay.Texts.{Text, units, big_int}
use tenzopay.Money.Units.{from_token_raw_value}
use tenzopay.Asa.Payload.{present}
use tenzopay.Deposits.State.{BlockchainNetwork, onchain, TokenTransfer, Vault, Config}
use tenzopay.Deposits.Record.{record_transfer, Turn}

-- An item of `event.activity`.
pub record Activity : Type 0 where
  pub category : String
  pub raw_value : Text
  pub contract_address : Option String
  pub decimals : Option ℕ
  pub hash : Option String
  pub log_index : ℕ
  pub block_number : Option Text
  pub to_address : String

-- The network and the decimals of `config.deposits`, and the rest of it.
pub record ChainConfig : Type 0 where
  pub deposits : Config
  pub network : BlockchainNetwork
  pub usdt_decimals : ℕ

abbrev pub is_token : Activity → Bool
is_token item = codes_eq (lower_codes item.category) (lower_codes "token")

-- `BigInt(text)`, or its throw.
abbrev pub read_int : Option ℤ → Result ℤ
read_int (some n) = ok n
read_int none = err (other "Cannot convert to a BigInt")

abbrev pub or_zero : Option Text → Text
or_zero (some text) = text
or_zero none = units "0x0"

abbrev pub decimals_of : Option ℕ → ℕ → ℕ
decimals_of (some n) default = n
decimals_of none default = default

abbrev pub with_hash :
    ChainConfig
    → Activity
    → String
    → Result ℤ
    → Result ℤ
    → Option String
    → Result (Option TokenTransfer)
with_hash config item contract (err e) amount hash = err e
with_hash config item contract (ok block) (err e) hash = err e
with_hash config item contract (ok block) (ok amount) none = ok none
with_hash config item contract (ok block) (ok amount) (some hash) = ok (
    some (record {
      network = config.network;
      tx_hash = hash;
      log_index = item.log_index;
      to_address = item.to_address;
      contract_address = contract;
      amount = amount;
    }))

abbrev pub with_value : ChainConfig → Activity → String → Result ℤ → Result (Option TokenTransfer)
with_value config item contract (err e) = err e
with_value config item contract (ok raw_value) =
    with_hash config item contract (read_int (big_int (or_zero item.block_number)))
      (from_token_raw_value raw_value (decimals_of item.decimals config.usdt_decimals) "USDT")
      (present item.hash)

abbrev pub contract_transfer :
    ChainConfig → Activity → Option String → Text → Result (Option TokenTransfer)
contract_transfer config item none raw_value = ok none
contract_transfer config item (some contract) [] = ok none
contract_transfer config item (some contract) (c ∷ text) =
    with_value config item contract (read_int (big_int (c ∷ text)))

-- The transfer of an item; none where it is passed over.
unfoldable pub transfer_of : ChainConfig → Activity → Result (Option TokenTransfer)
transfer_of config item =
    if is_token item
    then contract_transfer config item (present item.contract_address) item.raw_value
    else ok none

abbrev pub record_if : ChainConfig → Turn → Option TokenTransfer → Action Vault (Unit {0})
record_if config turn none = pure tt
record_if config turn (some transfer) =
    record_transfer config.deposits turn.run turn.again transfer onchain turn.new_id >> pure tt

-- The loop: an item that cannot be read, or recorded, ends it.
unfoldable pub process_alchemy :
    ChainConfig → (ℕ → Turn) → ℕ → List Activity → Action Vault (Unit {0})
process_alchemy config turns n [] = pure tt
process_alchemy config turns n (item ∷ rest) =
    with_result (transfer_of config item) (record_if config (turns n))
    >> process_alchemy config turns (suc n) rest
