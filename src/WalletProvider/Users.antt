-- ===== src/WalletProvider/Users.antt =====
-- The wallet users and their keys in the database: wallet_provider/domain/src/model/wallet_user.rs and
-- wallet_provider/persistence/src/wallet_user.rs, wallet_user_key.rs.
-- A table is a list of rows. A user has at most one row in the challenge table (its foreign key is
-- unique), so that row is a field of the user's. The statements are those that the code builds; that
-- the database may fail is left to the server (`AccountServer`).
pub mod Lookup
use nl_wallet.Base.{
  ℕ, ◌+◌, Bool, true, false, ◌&&◌, ◌||◌, Option, none, some, String, str_eq, Bytes, List, [], ◌∷◌,
  map, ltb, leb, ◌==◌, if◌then◌else◌, filter,
}

pub record InstructionChallenge : Type 0 where
  pub bytes : Bytes
  pub expiration_date_time : ℕ

-- `Encrypted<VerifyingKey>`
pub record Encrypted : Type 0 where
  pub ciphertext : Bytes
  pub iv : Bytes

-- A row of `wallet_user`, with its row of `wallet_user_instruction_challenge`.
pub record UserRow : Type 0 where
  pub id : ℕ
  pub wallet_id : String
  pub hw_pubkey : Bytes
  pub encrypted_pin_pubkey : Encrypted
  pub instruction_sequence_number : ℕ
  pub pin_entries : ℕ
  pub last_unsuccessful_pin : Option ℕ
  pub is_blocked : Bool
  pub challenge : Option InstructionChallenge

-- A row of `wallet_user_key`.
pub record KeyRow : Type 0 where
  pub id : ℕ
  pub wallet_user_id : ℕ
  pub identifier : String
  pub encrypted_private_key : Bytes

pub record Db : Type 0 where
  pub users : List UserRow
  pub keys : List KeyRow

pub record WalletUser : Type 0 where
  pub id : ℕ
  pub wallet_id : String
  pub hw_pubkey : Bytes
  pub encrypted_pin_pubkey : Encrypted
  pub unsuccessful_pin_entries : ℕ
  pub last_unsuccessful_pin_entry : Option ℕ
  pub instruction_challenge : Option InstructionChallenge
  pub instruction_sequence_number : ℕ

pub data WalletUserQueryResult : Type 0 where
  found : WalletUser → WalletUserQueryResult
  not_found : WalletUserQueryResult
  blocked : WalletUserQueryResult

pub record WalletUserCreate : Type 0 where
  pub id : ℕ
  pub wallet_id : String
  pub hw_pubkey : Bytes
  pub encrypted_pin_pubkey : Encrypted

pub record WalletUserKey : Type 0 where
  pub wallet_user_key_id : ℕ
  pub key_identifier : String
  pub key : Bytes

pub record WalletUserKeys : Type 0 where
  pub wallet_user_id : ℕ
  pub keys : List WalletUserKey

-- `SELECT … WHERE wallet_id = …`, one row.
unfoldable pub find_row : String → List UserRow → Option UserRow
find_row i [] = none
find_row i (u ∷ us) = if str_eq u.wallet_id i then some u else find_row i us

-- `UPDATE … WHERE wallet_id = …`
unfoldable pub update_rows : String → (UserRow → UserRow) → List UserRow → List UserRow
update_rows i f [] = []
update_rows i f (u ∷ us) = (if str_eq u.wallet_id i then f u else u) ∷ update_rows i f us

unfoldable pub update_many : String → (UserRow → UserRow) → Db → Db
update_many i f db = record db { users = update_rows i f db.users }

-- The primary key and the unique column of the table.
unfoldable pub conflicts : WalletUserCreate → List UserRow → Bool
conflicts c [] = false
conflicts c (u ∷ us) = (u.id == c.id || str_eq u.wallet_id c.wallet_id) || conflicts c us

abbrev pub new_row : WalletUserCreate → UserRow
new_row c = record {
  id = c.id;
  wallet_id = c.wallet_id;
  hw_pubkey = c.hw_pubkey;
  encrypted_pin_pubkey = c.encrypted_pin_pubkey;
  instruction_sequence_number = 0;
  pin_entries = 0;
  last_unsuccessful_pin = none;
  is_blocked = false;
  challenge = none;
}

-- `none`: the insertion violates a constraint.
unfoldable pub create_wallet_user : WalletUserCreate → Db → Option Db
create_wallet_user c db =
    if conflicts c db.users then none else some (record db { users = new_row c ∷ db.users })

abbrev pub wallet_user : UserRow → WalletUser
wallet_user u = record {
  id = u.id;
  wallet_id = u.wallet_id;
  hw_pubkey = u.hw_pubkey;
  encrypted_pin_pubkey = u.encrypted_pin_pubkey;
  unsuccessful_pin_entries = if leb u.pin_entries 255 then u.pin_entries else 255;
  last_unsuccessful_pin_entry = u.last_unsuccessful_pin;
  instruction_challenge = u.challenge;
  instruction_sequence_number = u.instruction_sequence_number;
}

abbrev pub query_result : Option UserRow → WalletUserQueryResult
query_result none = not_found
query_result (some u) = if u.is_blocked then blocked else found (wallet_user u)

unfoldable pub find_wallet_user_by_wallet_id : String → Db → WalletUserQueryResult
find_wallet_user_by_wallet_id i db = query_result (find_row i db.users)

abbrev pub without_challenge : UserRow → UserRow
without_challenge u = record u { challenge = none }

unfoldable pub clear_instruction_challenge : String → Db → Db
clear_instruction_challenge i = update_many i without_challenge

abbrev pub with_sequence_number : ℕ → UserRow → UserRow
with_sequence_number n u = record u { instruction_sequence_number = n }

unfoldable pub update_instruction_sequence_number : String → ℕ → Db → Db
update_instruction_sequence_number i n = update_many i (with_sequence_number n)

abbrev pub with_challenge : InstructionChallenge → UserRow → UserRow
with_challenge c u = record u { challenge = some c }

-- The insertion of the challenge, or its update on conflict.
unfoldable pub update_instruction_challenge_and_sequence_number :
    String → InstructionChallenge → ℕ → Db → Db
update_instruction_challenge_and_sequence_number i c n db =
    update_many i (with_challenge c) (update_instruction_sequence_number i n db)

-- `least(pin_entries + 1, 255)`
abbrev pub with_failed_pin : Bool → ℕ → UserRow → UserRow
with_failed_pin is_blocked datetime u = record u {
  pin_entries = if leb (u.pin_entries + 1) 255 then u.pin_entries + 1 else 255;
  last_unsuccessful_pin = some datetime;
  is_blocked = is_blocked;
}

unfoldable pub register_unsuccessful_pin_entry : String → Bool → ℕ → Db → Db
register_unsuccessful_pin_entry i is_blocked datetime =
    update_many i (with_failed_pin is_blocked datetime)

abbrev pub without_failed_pins : UserRow → UserRow
without_failed_pins u = record u {
  pin_entries = 0;
  last_unsuccessful_pin = none;
  is_blocked = false;
}

unfoldable pub reset_unsuccessful_pin_entries : String → Db → Db
reset_unsuccessful_pin_entries i = update_many i without_failed_pins

abbrev pub key_row : ℕ → WalletUserKey → KeyRow
key_row user k = record {
  id = k.wallet_user_key_id;
  wallet_user_id = user;
  identifier = k.key_identifier;
  encrypted_private_key = k.key;
}

-- The primary key of the table, and its unique index on user and identifier.
unfoldable pub key_conflicts : KeyRow → List KeyRow → Bool
key_conflicts k [] = false
key_conflicts k (r ∷ rs) =
    (r.id == k.id || r.wallet_user_id == k.wallet_user_id && str_eq r.identifier k.identifier)
    || key_conflicts k rs

unfoldable pub insert_keys : List KeyRow → List KeyRow → Option (List KeyRow)
insert_keys [] rows = some rows
insert_keys (k ∷ ks) rows = if key_conflicts k rows then none else insert_keys ks (k ∷ rows)

-- The keys afterwards. `none`: the insertion violates a constraint.
unfoldable pub create_keys : WalletUserKeys → Db → Option (List KeyRow)
create_keys c db = insert_keys (map (key_row c.wallet_user_id) c.keys) db.keys

abbrev pub contains : String → List String → Bool
contains i [] = false
contains i (j ∷ js) = str_eq i j || contains i js

-- The rows that the query selects, collected by identifier.
unfoldable pub find_keys_by_identifiers : ℕ → List String → Db → List (String × Bytes)
find_keys_by_identifiers user identifiers db =
    map (λ k. (k.identifier, k.encrypted_private_key))
      (filter (λ k. k.wallet_user_id == user && contains k.identifier identifiers) db.keys)
