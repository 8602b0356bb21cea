-- ===== src/Deposits/Assign.antt =====
-- `getOrCreate` and `deriveAddress` of apps/api/src/deposits/deposit-address.service.ts. The child keys of
-- an extended key and their hashes are parameters, as is the node's registration. A wallet is its user,
-- of whom it is the only one.
use tenzopay.Base.{
  ℕ, suc, ◌==◌, leb, String, str_eq, Option, none, some, Bool, true, false, ◌&&◌, ◌||◌,
  if◌then◌else◌, List, [], ◌∷◌,
}
use tenzopay.Effects.{
  Thrown, app_error, Result, ok, err, Action, pure, throw, try_catch, ◌>>=◌, ◌>>◌,
}
use tenzopay.Queries.{read, write, with_result}
use tenzopay.Ledger.Books.{unique_violation}
use tenzopay.Deposits.State.{BlockchainNetwork, DepositAddress, Vault, network_eq}

-- `config.deposits`, as far as an address depends on it.
pub record AddressConfig : Type 0 where
  pub network : BlockchainNetwork
  pub is_production : Bool
  pub xpub : Option String

pub record Derivation : Type 0 where
  pub child_address : String → ℕ → Result (Option String)
  pub demo_address : ℕ → String

pub data AddressQuery : Type 0 where
  upsert_wallet find_assigned find_highest create_address register find_raced : AddressQuery

-- What one run meets: the queries that fail, what others commit to the addresses before the insert and
-- before the look-up in `catch`, the id of a new row, and the node's answer to a registration.
pub record Visit : Type 0 where
  pub fault : AddressQuery → Option Thrown
  pub others : List DepositAddress → List DepositAddress
  pub later : List DepositAddress → List DepositAddress
  pub new_id : String
  pub watch : String → Result Bool

pub record Derived : Type 0 where
  pub address : String
  pub is_demo : Bool

abbrev pub derived_child : Result (Option String) → Result Derived
derived_child (err e) = err e
derived_child (ok none) =
    err (app_error "DERIVATION_FAILED" "Could not allocate a deposit address.")
derived_child (ok (some address)) = ok (record { address = address; is_demo = false })

unfoldable pub derive_address : AddressConfig → Derivation → ℕ → Result Derived
derive_address config keys index = elim config.xpub [
  | some xpub ↦ derived_child (keys.child_address xpub index)
  | none ↦
      if config.is_production
      then err (app_error "CUSTODY_NOT_CONFIGURED" "Deposits are temporarily unavailable.")
      else ok (record { address = keys.demo_address index; is_demo = true })
]

unfoldable pub is_assigned : String → BlockchainNetwork → DepositAddress → Bool
is_assigned user network a = str_eq a.user_id user && network_eq a.network network

-- `findUnique({ where: { walletId_network } })`
unfoldable pub find_assigned_to :
    String → BlockchainNetwork → List DepositAddress → Option DepositAddress
find_assigned_to user network [] = none
find_assigned_to user network (a ∷ rest) =
    if is_assigned user network a then some a else find_assigned_to user network rest

-- The three unique constraints on a network, and the primary key.
unfoldable pub clashes : DepositAddress → DepositAddress → Bool
clashes row a =
    (network_eq a.network row.network
      && (str_eq a.user_id row.user_id
          || (str_eq a.address row.address || a.derivation_index == row.derivation_index)))
    || str_eq a.id row.id

unfoldable pub is_taken : DepositAddress → List DepositAddress → Bool
is_taken row [] = false
is_taken row (a ∷ rest) = clashes row a || is_taken row rest

-- `(_max.derivationIndex ?? -1) + 1`
unfoldable pub next_index : BlockchainNetwork → List DepositAddress → ℕ
next_index network [] = 0
next_index network (a ∷ rest) =
    let next = next_index network rest in
    if network_eq a.network network && leb next a.derivation_index
    then suc a.derivation_index
    else next

unfoldable pub has_wallet : String → List String → Bool
has_wallet user [] = false
has_wallet user (w ∷ rest) = str_eq w user || has_wallet user rest

abbrev pub with_wallet : String → Vault → Vault
with_wallet user s = record s {
  wallets = if has_wallet user s.wallets then s.wallets else user ∷ s.wallets;
}

abbrev pub with_addresses : (List DepositAddress → List DepositAddress) → Vault → Vault
with_addresses f s = record s { addresses = f s.addresses }

abbrev pub insert : DepositAddress → Bool → Action Vault (Unit {0})
insert row true s = (err unique_violation, s)
insert row false s = (ok tt, with_addresses (λ rows. row ∷ rows) s)

-- `create`, behind what others have committed.
unfoldable pub create_row : Option Thrown → DepositAddress → Action Vault (Unit {0})
create_row (some e) row s = (err e, s)
create_row none row s = insert row (is_taken row s.addresses) s

unfoldable pub update_address :
    String → (DepositAddress → DepositAddress) → List DepositAddress → List DepositAddress
update_address id f [] = []
update_address id f (a ∷ rest) =
    let more = update_address id f rest in if str_eq a.id id then f a ∷ rest else a ∷ more

abbrev pub registered : DepositAddress → DepositAddress
registered a = record a { registered_with_provider = true }

unfoldable pub mark_registered : Visit → String → Bool → Action Vault (Unit {0})
mark_registered visit id false = pure tt
mark_registered visit id true =
    write (visit.fault register) (with_addresses (update_address id registered))

abbrev pub commit_others : (List DepositAddress → List DepositAddress) → Action Vault (Unit {0})
commit_others f s = (ok tt, with_addresses f s)

-- The `try`.
unfoldable pub create_and_watch : Visit → DepositAddress → Action Vault DepositAddress
create_and_watch visit row =
    commit_others visit.others
    >> create_row (visit.fault create_address) row
    >> with_result (visit.watch row.address) (mark_registered visit row.id)
    >> pure row

abbrev pub or_throw : Thrown → Option DepositAddress → Action Vault DepositAddress
or_throw e (some raced) = pure raced
or_throw e none = throw e

-- The `catch`: the winner's row, if there is one.
unfoldable pub find_winner :
    Visit → String → BlockchainNetwork → Thrown → Action Vault DepositAddress
find_winner visit user network e =
    commit_others visit.later
    >> read (visit.fault find_raced) (λ (s : Vault). find_assigned_to user network s.addresses)
    >>= or_throw e

abbrev pub new_row : AddressConfig → Visit → String → ℕ → Derived → DepositAddress
new_row config visit user index d = record {
  id = visit.new_id;
  network = config.network;
  address = d.address;
  user_id = user;
  derivation_index = index;
  is_demo = d.is_demo;
  registered_with_provider = false;
}

unfoldable pub assign :
    AddressConfig → Derivation → Visit → String → ℕ → Action Vault DepositAddress
unfolding try_catch
assign config keys visit user index = with_result (derive_address config keys index) (λ d.
    try_catch (create_and_watch visit (new_row config visit user index d))
      (find_winner visit user config.network))

unfoldable pub get_or_assign :
    AddressConfig
    → Derivation
    → Visit
    → String
    → Option DepositAddress
    → Action Vault DepositAddress
get_or_assign config keys visit user (some existing) = pure existing
get_or_assign config keys visit user none =
    read (visit.fault find_highest) (λ (s : Vault). next_index config.network s.addresses)
    >>= assign config keys visit user

unfoldable pub get_or_create :
    AddressConfig → Derivation → Visit → String → Action Vault DepositAddress
get_or_create config keys visit user =
    write (visit.fault upsert_wallet) (with_wallet user)
    >> read (visit.fault find_assigned)
        (λ (s : Vault). find_assigned_to user config.network s.addresses)
    >>= get_or_assign config keys visit user
