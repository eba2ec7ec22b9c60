-- ===== src/WalletProvider/Users/Lookup.antt =====
-- How an update shows in a later query.
use nl_wallet.Base.{
  ◌≡◌, ◌≢◌, ◌⊎◌, Bool-cases, refl, inl, inr, false, true, false, Option-cases, if◌then◌else◌,
  Option, none, some, String, str_eq, eq_iff, List, [], ◌∷◌, arith,
}
use nl_wallet.WalletProvider.Users.{
  UserRow, WalletUser, WalletUserCreate, conflicts, Db, found, blocked, wallet_user,
  find_wallet_user_by_wallet_id, find_row, update_rows,
}

abbrev pub map_option : (UserRow → UserRow) → Option UserRow → Option UserRow
map_option f none = none
map_option f (some u) = some (f u)

-- An update of the rows of one wallet changes what is found under its identifier, and no other.
pub find-update :
    (i j : String) (f : UserRow → UserRow) (us : List UserRow)
    → ((u : UserRow) → (f u).wallet_id ≡ u.wallet_id)
    → find_row j (update_rows i f us)
      ≡ (if str_eq i j then map_option f (find_row j us) else find_row j us)
unfolding find_row update_rows
find-update i j f [] keeps = ground arith
find-update i j f (u ∷ us) keeps = ground (
  arith,
  keeps u,
  eq_iff i j,
  eq_iff u.wallet_id i,
  eq_iff u.wallet_id j,
  find-update i j f us keeps,
)

-- The row that is found has the identifier that was asked for.
pub find_row-wallet_id :
    (i : String) (us : List UserRow) (u : UserRow) → find_row i us ≡ some u → u.wallet_id ≡ i
unfolding find_row
find_row-wallet_id i [] u e = ground arith
find_row-wallet_id i (x ∷ us) u e = ground (arith, eq_iff x.wallet_id i, find_row-wallet_id i us u)

-- A user is found from a row that is not blocked.
pub found_row :
    (i : String) (db : Db) (user : WalletUser)
    → find_wallet_user_by_wallet_id i db ≡ found user
    → (row : UserRow) × (find_row i db.users ≡ some row)
      × (user ≡ wallet_user row)
      × (row.is_blocked ≡ false)
unfolding find_wallet_user_by_wallet_id
found_row i db user e = elim (Option-cases (find_row i db.users)) [
  | inl missing ↦ absurd (ground (arith, missing))
  | inr (row, hit) ↦ (row, hit, ground arith, ground arith)
]

-- A user whose row is blocked is reported as such.
pub blocked_row :
    (i : String) (db : Db) (row : UserRow)
    → find_row i db.users ≡ some row
    → row.is_blocked ≡ true
    → find_wallet_user_by_wallet_id i db ≡ blocked
unfolding find_wallet_user_by_wallet_id
blocked_row i db row e b = ground arith

-- What is found after an update: the updated row, or a row of another wallet.
pub find-update_cases :
    (i j : String) (f : UserRow → UserRow) (us : List UserRow) (v : UserRow)
    → ((u : UserRow) → (f u).wallet_id ≡ u.wallet_id)
    → find_row j (update_rows i f us) ≡ some v
    → ((i ≡ j) × ((u : UserRow) × (find_row i us ≡ some u) × (v ≡ f u)))
      ⊎ ((i ≢ j) × (find_row j us ≡ some v))
find-update_cases i j f us v keeps e = elim (Bool-cases (str_eq i j)) [
  | inr other ↦ inr (ground (arith, eq_iff i j), ground (arith, find-update i j f us keeps))
  | inl same ↦
      let i≡j : i ≡ j = (eq_iff i j).0 same in
      elim (Option-cases (find_row i us)) [
        | inl missing ↦ absurd (ground (arith, find-update i j f us keeps))
        | inr (u, hit) ↦ inl (i≡j, (u, hit, ground (arith, find-update i j f us keeps)))
      ]
]

-- What is found under the identifier that was updated.
pub find-update_self :
    (i : String) (f : UserRow → UserRow) (us : List UserRow) (v : UserRow)
    → ((u : UserRow) → (f u).wallet_id ≡ u.wallet_id)
    → find_row i (update_rows i f us) ≡ some v
    → (u : UserRow) × (find_row i us ≡ some u) × (v ≡ f u)
find-update_self i f us v keeps e = elim (find-update_cases i i f us v keeps e) [
  | inl (_, r) ↦ r
  | inr (ne, _) ↦ absurd (ne refl)
]

pub find-update_hit :
    (i : String) (f : UserRow → UserRow) (us : List UserRow) (u : UserRow)
    → ((u : UserRow) → (f u).wallet_id ≡ u.wallet_id)
    → find_row i us ≡ some u
    → find_row i (update_rows i f us) ≡ some (f u)
find-update_hit i f us u keeps h = rw (find-update i i f us keeps, (eq_iff i i).1 refl, h)

-- The unique column: a row that is inserted has an identifier that no row had.
pub conflicts-find_row :
    (c : WalletUserCreate) (us : List UserRow)
    → conflicts c us ≡ false
    → find_row c.wallet_id us ≡ none
unfolding conflicts find_row
conflicts-find_row c [] e = refl
conflicts-find_row c (u ∷ us) e = ground (arith, conflicts-find_row c us)
