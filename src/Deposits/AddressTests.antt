-- ===== src/Deposits/AddressTests.antt =====
-- Runs of `getOrCreate` of apps/api/src/deposits/deposit-address.service.ts.
use tenzopay.Base.{true, false, str_eq, none, some, [], ◌∷◌, ◌≡◌, refl}
use tenzopay.Effects.{ok, try_catch}
use tenzopay.Queries.{read, write}
use tenzopay.Ledger.Samples.{funded}
use tenzopay.Deposits.State.{ethereum_mainnet, DepositAddress, Vault, network_eq}
use tenzopay.Deposits.Assign.{
  AddressConfig, Derivation, Visit, derive_address, is_assigned, find_assigned_to, next_index,
  has_wallet, get_or_assign, assign, create_and_watch, create_row, is_taken, clashes,
  mark_registered, update_address, get_or_create,
}
use tenzopay.Deposits.Assigned.{
  IsHonestVisit, IsAssigned, get_or_create-IsAssigned, get_or_create_again,
}
use tenzopay.Deposits.Rows.{Keeps-refl}
use tenzopay.Deposits.Fresh.{has_twin, get_or_create-Fresh}

abbrev first_address : DepositAddress
first_address = record {
  id = "a1";
  network = ethereum_mainnet;
  address = "0xab";
  user_id = "u1";
  derivation_index = 4;
  is_demo = false;
  registered_with_provider = true;
}

abbrev vault : Vault
vault = record {
  books = funded;
  deposits = [];
  wallets = "u1" ∷ [];
  addresses = first_address ∷ [];
  observed = [];
  notifications = [];
}

abbrev config : AddressConfig
config = record { network = ethereum_mainnet; is_production = true; xpub = some "xpub6" }

abbrev keys : Derivation
keys = record { child_address = λ xpub index. ok (some "0xcd"); demo_address = λ index. "0xef" }

abbrev visit : Visit
visit = record {
  fault = λ q. none;
  others = λ rows. rows;
  later = λ rows. rows;
  new_id = "a2";
  watch = λ address. ok true;
}

visit-IsHonest : IsHonestVisit visit
visit-IsHonest = record { others = Keeps-refl; later = Keeps-refl }

get_or_create-IsAssigned_example :
    IsAssigned config "u2" vault (get_or_create config keys visit "u2" vault)
get_or_create-IsAssigned_example =
    get_or_create-IsAssigned config "u2" vault keys visit visit-IsHonest

next_is_five : next_index ethereum_mainnet vault.addresses ≡ 5
unfolding next_index network_eq
next_is_five = refl

get_or_create-Fresh_example :
    (get_or_create config keys visit "u2" vault).0
    ≡ ok (record {
      id = "a2";
      network = ethereum_mainnet;
      address = "0xcd";
      user_id = "u2";
      derivation_index = next_index ethereum_mainnet vault.addresses;
      is_demo = false;
      registered_with_provider = false;
    })
unfolding derive_address find_assigned_to is_assigned str_eq has_twin network_eq
get_or_create-Fresh_example =
    get_or_create-Fresh config keys visit "u2" vault (record { address = "0xcd"; is_demo = false })
      true (λ q. refl) (λ rows. refl) refl refl refl refl

abbrev second_address : DepositAddress
second_address = record first_address {
  id = "a2";
  address = "0xcd";
  user_id = "u2";
  derivation_index = 5;
  registered_with_provider = false;
}

-- The vault with the second address, registered.
abbrev later_vault : Vault
later_vault = record vault {
  wallets = "u2" ∷ "u1" ∷ [];
  addresses = record second_address { registered_with_provider = true } ∷ first_address ∷ [];
}

second_run : get_or_create config keys visit "u2" vault ≡ (ok second_address, later_vault)
unfolding get_or_create read write has_wallet find_assigned_to is_assigned str_eq get_or_assign
    assign derive_address next_index network_eq try_catch create_and_watch create_row is_taken
    clashes mark_registered update_address
second_run = refl

get_or_create_again_example :
    (b : DepositAddress) × ((get_or_create config keys visit "u2" later_vault).0 ≡ ok b)
    × (b.address ≡ "0xcd")
    × ((get_or_create config keys visit "u2" later_vault).1.addresses ≡ later_vault.addresses)
get_or_create_again_example =
    get_or_create_again config keys keys visit visit "u2" vault later_vault second_address
      visit-IsHonest second_run refl refl
