-- ===== src/Deposits/State.antt =====
-- The tables that deposits are kept in (apps/api/prisma/schema.prisma), and what one run of a method of
-- apps/api/src/deposits/deposits.service.ts meets. New rows stand at the front. Block numbers, hashes of
-- blocks, sender addresses and the reasons of failures, which nothing decides on, are left out.
use tenzopay.Base.{
  ℕ, ℤ, String, str_eq, lower_codes, codes_eq, Option, none, some, Bool, true, false, ◌&&◌, ◌==◌,
  if◌then◌else◌, List, [], ◌∷◌,
}
use Prim.Native.Char.{code}
use tenzopay.Effects.{Thrown, Result}
use tenzopay.Ledger.Books.{Books}
use tenzopay.Ledger.Methods.{Weather}
use tenzopay.Fees.Rates.{DepositRates}

pub data DepositStatus : Type 0 where
  pending detected confirming confirmed failed orphaned : DepositStatus

pub data DepositSource : Type 0 where
  onchain demo : DepositSource

pub data BlockchainNetwork : Type 0 where
  ethereum_mainnet ethereum_sepolia : BlockchainNetwork

-- `TokenTransfer`: an observed transfer.
pub record TokenTransfer : Type 0 where
  pub network : BlockchainNetwork
  pub tx_hash : String
  pub log_index : ℕ
  pub to_address : String
  pub contract_address : String
  pub amount : ℤ

pub record Deposit : Type 0 where
  pub id : String
  pub user_id : String
  pub network : BlockchainNetwork
  pub amount : ℤ
  pub currency : String
  pub status : DepositStatus
  pub source : DepositSource
  pub tx_hash : Option String
  pub log_index : Option ℕ
  pub confirmations : ℕ
  pub required_confirmations : ℕ
  pub created_at : ℕ
  pub confirmed_at : Option ℕ
  pub ledger_transaction_id : Option ℕ

-- An address with the user of its wallet, which is the only wallet of that user.
pub record DepositAddress : Type 0 where
  pub id : String
  pub network : BlockchainNetwork
  pub address : String
  pub user_id : String
  pub derivation_index : ℕ
  pub is_demo : Bool
  pub registered_with_provider : Bool

pub data NotificationType : Type 0 where
  deposit_confirmed deposit_detected : NotificationType

-- A notification of a deposit.
pub record Notification : Type 0 where
  pub user_id : String
  pub type : NotificationType
  pub deposit_id : String

-- The ledger, and the tables of the deposits; of a raw observation only the transfer is kept.
pub record Vault : Type 0 where
  pub books : Books
  pub deposits : List Deposit
  pub wallets : List String
  pub addresses : List DepositAddress
  pub observed : List TokenTransfer
  pub notifications : List Notification

-- `config.deposits`; a contract that is not configured is "".
pub record Config : Type 0 where
  pub is_demo : Bool
  pub usdt_contract : String
  pub min_amount : ℤ
  pub confirmations : ℕ

-- The queries of the methods outside the ledger.
pub data Query : Type 0 where
  find_address record_raw create_row find_existing notify : Query
  find_row update_row find_uncredited mark_confirmed : Query
  find_before find_after : Query
  find_fee mark_orphaned : Query

-- What one run meets: the weather of the ledger, the error with which a query fails, if it does, the
-- node's answers, the rates that the settings give, and the clock in milliseconds.
pub record Run : Type 0 where
  pub weather : Weather
  pub fault : Query → Option Thrown
  pub confirmations : String → Result (Option ℕ)
  pub rates : Result DepositRates
  pub now : ℕ

unfoldable pub network_eq : BlockchainNetwork → BlockchainNetwork → Bool
network_eq ethereum_mainnet ethereum_mainnet = true
network_eq ethereum_sepolia ethereum_sepolia = true
network_eq _ _ = false

abbrev pub hash_eq : Option String → String → Bool
hash_eq none hash = false
hash_eq (some h) hash = str_eq h hash

abbrev pub index_eq : Option ℕ → ℕ → Bool
index_eq none index = false
index_eq (some i) index = i == index

-- `where: { network, txHash, logIndex }`
unfoldable pub is_of : TokenTransfer → Deposit → Bool
is_of t d =
    network_eq d.network t.network
    && (hash_eq d.tx_hash t.tx_hash && index_eq d.log_index t.log_index)

-- `deposit.findFirst({ where: { network, txHash, logIndex } })`
unfoldable pub find_transfer : TokenTransfer → List Deposit → Option Deposit
find_transfer t [] = none
find_transfer t (d ∷ rest) = if is_of t d then some d else find_transfer t rest

-- `deposit.findUnique({ where: { id } })`
unfoldable pub find_deposit : String → List Deposit → Option Deposit
find_deposit id [] = none
find_deposit id (d ∷ rest) = if str_eq d.id id then some d else find_deposit id rest

-- `deposit.update({ where: { id } })`
unfoldable pub update_deposit : String → (Deposit → Deposit) → List Deposit → List Deposit
update_deposit id f [] = []
update_deposit id f (d ∷ rest) =
    let more = update_deposit id f rest in if str_eq d.id id then f d ∷ rest else d ∷ more

-- The code points of a text as they are.
abbrev codes_of : String → List ℕ
codes_of String.[] = []
codes_of (String.◌∷◌ c s) = code c ∷ codes_of s

-- `depositAddress.findUnique({ where: { network, address: toAddress.toLowerCase() } })`
unfoldable pub find_address_of : TokenTransfer → List DepositAddress → Option DepositAddress
find_address_of t [] = none
find_address_of t (a ∷ rest) =
    if network_eq a.network t.network && codes_eq (codes_of a.address) (lower_codes t.to_address)
    then some a
    else find_address_of t rest

abbrev pub with_deposits : (List Deposit → List Deposit) → Vault → Vault
with_deposits f s = record s { deposits = f s.deposits }

abbrev pub on_books : {A : Type 0} → Result A × Books → Vault → Result A × Vault
on_books (r, b) s = (r, record s { books = b })
