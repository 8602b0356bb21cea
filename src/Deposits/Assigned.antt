-- ===== src/Deposits/Assigned.antt =====
-- What every way through `getOrCreate` leaves of the addresses
-- (apps/api/src/deposits/deposit-address.service.ts).
use tenzopay.Base.{
  ℕ, String, str_eq_iff, Option, none, some, Bool, true, false, List, ◌≡◌, refl, ap, subst, ◌∙◌,
}
use tenzopay.Effects.{Thrown, Result, ok, err, pure, continue, after_catch, try_catch}
use tenzopay.Queries.{read, write, with_result, read-P, write-P, with_result-P}
use tenzopay.Deposits.State.{DepositAddress, Vault}
use tenzopay.Deposits.Assign.{
  AddressConfig, Derivation, find_highest, find_assigned, upsert_wallet, create_address, register,
  find_raced, Visit, Derived, derive_address, is_assigned, find_assigned_to, is_taken, with_wallet,
  with_addresses, insert, create_row, update_address, registered, mark_registered, create_and_watch,
  or_throw, find_winner, new_row, assign, get_or_assign, get_or_create,
}
use tenzopay.Deposits.Rows.{
  Keeps, Keeps-refl, Keeps-trans, find-fields, inserted-Keeps, is_assigned-fields, network_eq_refl,
  updated-Keeps,
}

-- The addresses that others commit keep the assigned ones.
pub record IsHonestVisit (visit : Visit) : Type 0 where
  pub others : (rows : List DepositAddress) → Keeps rows (visit.others rows)
  pub later : (rows : List DepositAddress) → Keeps rows (visit.later rows)

module _ (config : AddressConfig) (user : String) (s : Vault) where
  -- However the method ends, the assigned addresses stay; a row that it returns is the user's, and
  -- assigned on the network.
  abbrev pub IsAssigned : Result DepositAddress × Vault → Type 0
  IsAssigned (ok a, t) =
      (a.user_id ≡ user)
      × Keeps s.addresses t.addresses
      × (b : DepositAddress) × (find_assigned_to user config.network t.addresses ≡ some b)
      × (registered b ≡ registered a)
  IsAssigned (err e, t) = Keeps s.addresses t.addresses

  found :
      (a : DepositAddress) (t : Vault)
      → Keeps s.addresses t.addresses
      → find_assigned_to user config.network t.addresses ≡ some a
      → IsAssigned (ok a, t)
  found a t k h = ((find-fields user config.network t.addresses a h).0, k, a, h, refl)

  raced :
      (e : Thrown) (o : Option DepositAddress) (t : Vault)
      → Keeps s.addresses t.addresses
      → find_assigned_to user config.network t.addresses ≡ o
      → IsAssigned (or_throw e o t)
  raced e none t k h = k
  raced e (some a) t k h = found a t k h

  module _ (visit : Visit) (honest : IsHonestVisit visit) (row : DepositAddress)
      (mine : is_assigned user config.network row ≡ true) where
    -- The row, or what became of it, is assigned.
    abbrev HasRow : Vault → Type 0
    HasRow t =
        Keeps s.addresses t.addresses
        × (b : DepositAddress) × (find_assigned_to user config.network t.addresses ≡ some b)
        × (registered b ≡ registered row)

    abbrev Ends : Result (Unit {0}) × Vault → Type 0
    Ends (ok x, t) = HasRow t
    Ends (err e, t) = Keeps s.addresses t.addresses

    kept_row : (t : Vault) → HasRow t → HasRow (with_addresses (update_address row.id registered) t)
    kept_row t (k, b, h, e) =
        let step = updated-Keeps row.id t.addresses in
        let (c, g, f) = step.assigned user config.network b h in
        (Keeps-trans s.addresses t.addresses _ k step, c, g, f ∙ e)

    written :
        (fault : Option Thrown) (t : Vault)
        → HasRow t
        → Ends (write fault (with_addresses (update_address row.id registered)) t)
    unfolding write
    written none t h = kept_row t h
    written (some e) t h = h.0

    mark-Ends : (b : Bool) (t : Vault) → HasRow t → Ends (mark_registered visit row.id b t)
    unfolding mark_registered
    mark-Ends false t h = h
    mark-Ends true t h = written (visit.fault register) t h

    watch-Ends :
        (r : Result (Unit {0}) × Vault)
        → Ends r
        → Ends
            (continue (λ x. with_result (visit.watch row.address) (mark_registered visit row.id)) r)
    watch-Ends (ok x, t) h =
        with_result-P Ends t (visit.watch row.address) (mark_registered visit row.id) (λ e. h.0)
          (λ b e. mark-Ends b t h)
    watch-Ends (err e, t) h = h

    insert-Ends :
        (b : Bool) (t : Vault)
        → is_taken row t.addresses ≡ b
        → Keeps s.addresses t.addresses
        → Ends (insert row b t)
    unfolding find_assigned_to
    insert-Ends true t h k = k
    insert-Ends false t h k = (
      Keeps-trans s.addresses t.addresses _ k (inserted-Keeps row t.addresses h),
      row,
      rw mine refl,
      refl,
    )

    create-Ends :
        (fault : Option Thrown) (t : Vault)
        → Keeps s.addresses t.addresses
        → Ends (create_row fault row t)
    unfolding create_row
    create-Ends (some e) t k = k
    create-Ends none t k = insert-Ends _ t refl k

    returned : (r : Result (Unit {0}) × Vault) → Ends r → IsAssigned (continue (λ x. pure row) r)
    returned (ok x, t) (k, b, h, e) =
        ((is_assigned-fields user config.network row mine).0, k, b, h, e)
    returned (err e, t) k = k

    create_and_watch-IsAssigned :
        (t : Vault) → Keeps s.addresses t.addresses → IsAssigned (create_and_watch visit row t)
    unfolding create_and_watch
    create_and_watch-IsAssigned t k = returned _ (
        watch-Ends _ (
          create-Ends (visit.fault create_address) (with_addresses visit.others t)
            (Keeps-trans s.addresses t.addresses _ k (honest.others t.addresses))))

    winner :
        (e : Thrown) (t : Vault)
        → Keeps s.addresses t.addresses
        → IsAssigned (find_winner visit user config.network e t)
    unfolding find_winner
    winner e t k =
        let u = with_addresses visit.later t in
        let more = Keeps-trans s.addresses t.addresses u.addresses k (honest.later t.addresses) in
        read-P IsAssigned u (visit.fault find_raced) _ (or_throw e) (λ x. more)
          (raced e _ u more refl)

    caught :
        (r : Result DepositAddress × Vault)
        → IsAssigned r
        → IsAssigned (after_catch (find_winner visit user config.network) r)
    caught (ok a, t) h = h
    caught (err e, t) k = winner e t k

  module _ (keys : Derivation) (visit : Visit) (honest : IsHonestVisit visit) where
    row_is_mine :
        (index : ℕ) (d : Derived)
        → is_assigned user config.network (new_row config visit user index d) ≡ true
    unfolding is_assigned
    row_is_mine index d = rw ((str_eq_iff user user).1 refl) (network_eq_refl config.network)

    assign-IsAssigned :
        (index : ℕ) (t : Vault)
        → Keeps s.addresses t.addresses
        → IsAssigned (assign config keys visit user index t)
    unfolding assign try_catch
    assign-IsAssigned index t k =
        with_result-P IsAssigned t (derive_address config keys index) _ (λ e. k)
          (λ d h.
            let row = new_row config visit user index d in
            let mine = row_is_mine index d in
            caught visit honest row mine _ (create_and_watch-IsAssigned visit honest row mine t k))

    looked_up :
        (o : Option DepositAddress) (t : Vault)
        → find_assigned_to user config.network t.addresses ≡ o
        → Keeps s.addresses t.addresses
        → IsAssigned (get_or_assign config keys visit user o t)
    unfolding get_or_assign
    looked_up (some a) t h k = found a t k h
    looked_up none t h k =
        read-P IsAssigned t (visit.fault find_highest) _ (assign config keys visit user) (λ e. k)
          (assign-IsAssigned _ t k)

    -- `getOrCreate`, with any failing queries, any answer of the node, and any rows that others commit in
    -- the meantime which keep the assigned ones: an assigned address stays assigned, the rows of a network
    -- stay distinct in user, address and index, and a row that is returned is the one that is assigned to
    -- the user on the network.
    pub get_or_create-IsAssigned : IsAssigned (get_or_create config keys visit user s)
    unfolding get_or_create
    get_or_create-IsAssigned =
        write-P (λ r. IsAssigned (continue (get_or_assign config keys visit user) r)) s
          (visit.fault upsert_wallet) (with_wallet user) _ (λ e. Keeps-refl s.addresses)
          (read-P IsAssigned (with_wallet user s) (visit.fault find_assigned)
            (λ (t : Vault). find_assigned_to user config.network t.addresses)
            (get_or_assign config keys visit user) (λ e. Keeps-refl s.addresses)
            (looked_up _ (with_wallet user s) refl (Keeps-refl s.addresses)))

-- A second `getOrCreate` whose first two queries work returns the address of the first one, whatever the
-- rest of it meets, and changes no address.
pub get_or_create_again :
    (config : AddressConfig) (keys again_keys : Derivation) (visit again : Visit) (user : String)
    (s t : Vault) (a : DepositAddress)
    → IsHonestVisit visit
    → get_or_create config keys visit user s ≡ (ok a, t)
    → again.fault upsert_wallet ≡ none
    → again.fault find_assigned ≡ none
    → (b : DepositAddress) × ((get_or_create config again_keys again user t).0 ≡ ok b)
      × (b.address ≡ a.address)
      × ((get_or_create config again_keys again user t).1.addresses ≡ t.addresses)
unfolding get_or_create read write get_or_assign
get_or_create_again config keys again_keys visit again user s t a honest h wallet look =
    let (own, k, b, g, e) =
      subst (IsAssigned config user s) h
        (get_or_create-IsAssigned config user s keys visit honest) in
    (
      b,
      rw (wallet, look, g) refl,
      ap (λ (x : DepositAddress). x.address) e,
      rw (wallet, look, g) refl,
    )
