-- ===== src/Deposits/Rows.antt =====
-- The rows of the deposit addresses, and how an insert and a registration keep the assigned ones
-- (apps/api/src/deposits/deposit-address.service.ts).
use tenzopay.Base.{
  String, str_eq, str_eq_iff, some, Bool, true, false, ◌||◌, Bool-cases, inl, inr, List, [], ◌∷◌,
  ◌≡◌, refl, ap, subst, ◌∙◌, arith,
}
use tenzopay.Deposits.State.{
  BlockchainNetwork, ethereum_mainnet, ethereum_sepolia, DepositAddress, network_eq,
}
use tenzopay.Deposits.Assign.{
  is_assigned, find_assigned_to, clashes, is_taken, update_address, registered,
}

-- No two rows of a network have the same user, address or index, and no two rows the same id.
abbrev pub IsUnique : List DepositAddress → Type 0
IsUnique [] = Unit {0}
IsUnique (a ∷ rest) = (is_taken a rest ≡ false) × IsUnique rest

-- Every assigned address stays assigned.
pub record Keeps (rows later : List DepositAddress) : Type 0 where
  pub unique : IsUnique rows → IsUnique later
  pub assigned :
      (user : String) (network : BlockchainNetwork) (a : DepositAddress)
      → find_assigned_to user network rows ≡ some a
      → (b : DepositAddress) × (find_assigned_to user network later ≡ some b)
        × (registered b ≡ registered a)

pub Keeps-refl : (rows : List DepositAddress) → Keeps rows rows
Keeps-refl rows = record { unique = λ v. v; assigned = λ user network a h. (a, h, refl) }

pub Keeps-trans : (x y z : List DepositAddress) → Keeps x y → Keeps y z → Keeps x z
Keeps-trans x y z p q = record {
  unique = λ v. q.unique (p.unique v);
  assigned = λ user network a h.
      let (b, g, e) = p.assigned user network a h in
      let (c, k, f) = q.assigned user network b g in (c, k, f ∙ e);
}

some_row : {a b : DepositAddress} → some a ≡ some b → a ≡ b
some_row h = cc (h)

network_eq_iff : (a b : BlockchainNetwork) → network_eq a b ≡ true → a ≡ b
unfolding network_eq
network_eq_iff ethereum_mainnet ethereum_mainnet h = refl
network_eq_iff ethereum_sepolia ethereum_sepolia h = refl
network_eq_iff ethereum_mainnet ethereum_sepolia h = cc (h)
network_eq_iff ethereum_sepolia ethereum_mainnet h = cc (h)

pub network_eq_refl : (a : BlockchainNetwork) → network_eq a a ≡ true
unfolding network_eq
network_eq_refl ethereum_mainnet = refl
network_eq_refl ethereum_sepolia = refl

pub is_assigned-fields :
    (user : String) (network : BlockchainNetwork) (a : DepositAddress)
    → is_assigned user network a ≡ true
    → (a.user_id ≡ user) × (a.network ≡ network)
unfolding is_assigned
is_assigned-fields user network a h =
    let p : str_eq a.user_id user ≡ true = ground (arith, h) in
    let q : network_eq a.network network ≡ true = ground (arith, h) in
    ((str_eq_iff a.user_id user).0 p, network_eq_iff a.network network q)

pub find-fields :
    (user : String) (network : BlockchainNetwork) (rows : List DepositAddress) (a : DepositAddress)
    → find_assigned_to user network rows ≡ some a
    → (a.user_id ≡ user) × (a.network ≡ network)
unfolding find_assigned_to
find-fields user network [] a h = cc (h)
find-fields user network (x ∷ rows) a h = elim (Bool-cases (is_assigned user network x)) [
  | inl here ↦
      let e : some x ≡ some a = rw here at h in
      subst (λ y. (y.user_id ≡ user) × (y.network ≡ network)) (some_row e)
        (is_assigned-fields user network x here)
  | inr there ↦ find-fields user network rows a (rw there at h)
]

-- A row for a user who has one clashes with it.
taken_again :
    (row a : DepositAddress) (rows : List DepositAddress)
    → find_assigned_to row.user_id row.network rows ≡ some a
    → is_taken row rows ≡ true
unfolding find_assigned_to is_taken clashes is_assigned
taken_again row a [] h = cc (h)
taken_again row a (x ∷ rows) h = elim (Bool-cases (is_assigned row.user_id row.network x)) [
  | inl here ↦ ground (arith, here)
  | inr there ↦ ground (arith, taken_again row a rows (rw there at h))
]

not_both : {b : Bool} → b ≡ true → b ≡ false → ⊥
not_both h k = cc (h, k)

pub inserted-Keeps :
    (row : DepositAddress) (rows : List DepositAddress)
    → is_taken row rows ≡ false
    → Keeps rows (row ∷ rows)
unfolding find_assigned_to
inserted-Keeps row rows free = record {
  unique = λ v. (free, v);
  assigned = λ user network a h. elim (Bool-cases (is_assigned user network row)) [
    | inl here ↦
        let (p, q) = is_assigned-fields user network row here in
        absurd (not_both (taken_again row a rows (rw (p, q) h)) free)
    | inr there ↦ (a, rw there h, refl)
  ];
}

taken-registered :
    (row : DepositAddress) (rows : List DepositAddress)
    → is_taken (registered row) rows ≡ is_taken row rows
unfolding is_taken clashes
taken-registered row [] = refl
taken-registered row (x ∷ rows) = ap (λ b. clashes row x || b) (taken-registered row rows)

module _ (id : String) where
  taken-update :
      (row : DepositAddress) (rows : List DepositAddress)
      → is_taken row (update_address id registered rows) ≡ is_taken row rows
  unfolding is_taken clashes update_address
  taken-update row [] = refl
  taken-update row (x ∷ rows) = elim (Bool-cases (str_eq x.id id)) [
    | inl here ↦ rw here refl
    | inr there ↦ rw (there, taken-update row rows) refl
  ]

  update-IsUnique :
      (rows : List DepositAddress) → IsUnique rows → IsUnique (update_address id registered rows)
  unfolding update_address is_taken clashes
  update-IsUnique [] v = v
  update-IsUnique (x ∷ rows) v = elim (Bool-cases (str_eq x.id id)) [
    | inl here ↦ rw here (taken-registered x rows ∙ v.0, v.1)
    | inr there ↦ rw there (taken-update x rows ∙ v.0, update-IsUnique rows v.1)
  ]

  update-assigned :
      (rows : List DepositAddress) (user : String) (network : BlockchainNetwork)
      (a : DepositAddress)
      → find_assigned_to user network rows ≡ some a
      → (b : DepositAddress) × (find_assigned_to user network (update_address id registered rows)
          ≡ some b)
        × (registered b ≡ registered a)
  unfolding update_address find_assigned_to is_assigned
  update-assigned [] user network a h = cc (h)
  update-assigned (x ∷ rows) user network a h = elim (Bool-cases (str_eq x.id id)) [
    | inl here ↦ elim (Bool-cases (is_assigned user network x)) [
      | inl mine ↦
          let e : some x ≡ some a = rw mine at h in
          rw (here, mine) (registered x, refl, ap registered (some_row e))
      | inr other_row ↦ rw (here, other_row) (a, rw other_row at h, refl)
    ]
    | inr there ↦ elim (Bool-cases (is_assigned user network x)) [
      | inl mine ↦ rw (there, mine) (a, rw mine at h, refl)
      | inr other_row ↦
          rw (there, other_row) (update-assigned rows user network a (rw other_row at h))
    ]
  ]

  pub updated-Keeps : (rows : List DepositAddress) → Keeps rows (update_address id registered rows)
  updated-Keeps rows = record { unique = update-IsUnique rows; assigned = update-assigned rows }
