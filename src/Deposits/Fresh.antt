-- ===== src/Deposits/Fresh.antt =====
-- A user without an address gets one (`getOrCreate` of apps/api/src/deposits/deposit-address.service.ts).
use tenzopay.Base.{
  ℕ, suc, ◌≤◌, leb, ◌==◌, String, str_eq, none, some, Bool, true, false, ◌&&◌, ◌||◌, Bool-cases,
  inl, inr, List, [], ◌∷◌, ◌≡◌, refl, arith, if◌then◌else◌,
}
use tenzopay.Effects.{Thrown, Action, ok, pure, continue, after_catch, try_catch}
use tenzopay.Queries.{read, write}
use tenzopay.Deposits.State.{DepositAddress, Vault, network_eq}
use tenzopay.Deposits.Assign.{
  AddressConfig, Derivation, AddressQuery, find_highest, find_assigned, upsert_wallet,
  create_address, register, Visit, Derived, derive_address, is_assigned, find_assigned_to, clashes,
  is_taken, next_index, create_row, mark_registered, create_and_watch, new_row, assign,
  get_or_assign, get_or_create,
}

-- Whether a row has the address or the id.
unfoldable pub has_twin : DepositAddress → List DepositAddress → Bool
has_twin row [] = false
has_twin row (a ∷ rest) =
    ((network_eq a.network row.network && str_eq a.address row.address) || str_eq a.id row.id)
    || has_twin row rest

next_above :
    (row a : DepositAddress) (next : ℕ)
    → (if network_eq a.network row.network && leb next a.derivation_index
        then suc a.derivation_index
        else next)
      ≤ row.derivation_index
    → (next ≤ row.derivation_index)
      × ((network_eq a.network row.network && (a.derivation_index == row.derivation_index)) ≡ false)
next_above row a next h = (ground (arith, h), ground (arith, h))

-- An index above all others is free.
free_row :
    (row : DepositAddress) (rows : List DepositAddress)
    → next_index row.network rows ≤ row.derivation_index
    → find_assigned_to row.user_id row.network rows ≡ none
    → has_twin row rows ≡ false
    → is_taken row rows ≡ false
unfolding next_index find_assigned_to has_twin is_taken clashes is_assigned
free_row row [] h g k = refl
free_row row (a ∷ rows) h g k =
    let (bound, apart) = next_above row a (next_index row.network rows) h in
    elim (Bool-cases (is_assigned row.user_id row.network a)) [
      | inl mine ↦ let e : some a ≡ none = rw mine at g in cc (e)
      | inr others_row ↦
          let free = free_row row rows bound (rw others_row at g) (ground (arith, k)) in
          ground (arith, others_row, apart, free, k)
    ]

registers :
    (visit : Visit) (row : DepositAddress) (handler : Thrown → Action Vault DepositAddress)
    (b : Bool) (t : Vault)
    → visit.fault register ≡ none
    → (after_catch handler (continue (λ x. pure row) (mark_registered visit row.id b t))).0 ≡ ok row
unfolding mark_registered write
registers visit row handler false t h = refl
registers visit row handler true t h = rw (h, write) refl

module _ (config : AddressConfig) (keys : Derivation) (visit : Visit) (user : String)
    (s : Vault) where
  abbrev pub fresh : Derived → DepositAddress
  fresh d = new_row config visit user (next_index config.network s.addresses) d

  -- A user without an address, in a run whose queries work and in which nobody interferes: if the key of
  -- the next index can be derived, its address and the new id are not in the table and the node answers the
  -- registration, then `getOrCreate` returns a new row of the user with that address and index.
  pub get_or_create-Fresh :
      (d : Derived) (answer : Bool)
      → ((q : AddressQuery) → visit.fault q ≡ none)
      → ((rows : List DepositAddress) → visit.others rows ≡ rows)
      → derive_address config keys (next_index config.network s.addresses) ≡ ok d
      → find_assigned_to user config.network s.addresses ≡ none
      → has_twin (fresh d) s.addresses ≡ false
      → visit.watch d.address ≡ ok answer
      → (get_or_create config keys visit user s).0 ≡ ok (fresh d)
  unfolding get_or_create read write get_or_assign assign try_catch create_and_watch create_row
  get_or_create-Fresh d answer works alone derived none_yet free watched =
      let index = next_index config.network s.addresses in
      let own_index : index ≤ index = omega arith in
      let open_row = free_row (fresh d) s.addresses own_index none_yet free in
      rw
        (
          works upsert_wallet,
          works find_assigned,
          none_yet,
          works find_highest,
          derived,
          alone s.addresses,
          works create_address,
          open_row,
          watched,
        )
        (registers visit (fresh d) _ answer _ (works register))
