-- ===== src/WalletProvider/AccountServer/Instruct/Keys.antt =====
-- The handlers of the single instructions: wallet_provider/service/src/instructions.rs.
use nl_wallet.Base.{
  ℕ, suc, Option, none, some, String, str_eq, Bytes, List, [], ◌∷◌, ◌++◌, map, if◌then◌else◌, Exec,
  ok, err, panic, ok_or, unwrap, ◌>>=◌, ◌>>◌,
}
use nl_wallet.WalletProvider.Users.{
  Db, KeyRow, WalletUser, WalletUserKey, create_keys, find_keys_by_identifiers,
}
use nl_wallet.WalletProvider.AccountServer.{
  Environment, InstructionPayload, check_pin, generate_key, sign, InstructionResult, pin_checked,
  public_keys, signatures, InstructionError, instruction_hsm_error, storage, transaction, execution,
  db_call, begin_keys, save_keys, find_keys, commit_keys,
}

-- `unzip` of the generated keys: the public keys, and the rows with fresh identifiers.
abbrev pub public_part : List (String × Bytes × Bytes) → List (String × Bytes)
public_part = map (λ k. (k.0, k.1))

abbrev pub stored_part : (ℕ → ℕ) → ℕ → List (String × Bytes × Bytes) → List WalletUserKey
stored_part uuid n [] = []
stored_part uuid n (k ∷ ks) =
    record { wallet_user_key_id = uuid n; key_identifier = k.0; key = k.2 }
    ∷ stored_part uuid (suc n) ks

-- `HashMap::get` on what the query found.
unfoldable pub get : String → List (String × Bytes) → Option Bytes
get i [] = none
get i ((j, k) ∷ ks) = if str_eq j i then some k else get i ks

-- The `unwrap` of each key stands before the first `await` of its future.
unfoldable pub wrapped_keys :
    List (String × Bytes) → List String → Exec InstructionError (List Bytes)
wrapped_keys found [] = ok []
wrapped_keys found (i ∷ is) = do
  key ← unwrap (get i found)
  keys ← wrapped_keys found is
  ok (key ∷ keys)

unfoldable pub all_wrapped_keys :
    List (String × Bytes)
    → List (Bytes × List String)
    → Exec InstructionError (List (Bytes × List Bytes))
all_wrapped_keys found [] = ok []
all_wrapped_keys found ((message, is) ∷ rest) = do
  keys ← wrapped_keys found is
  others ← all_wrapped_keys found rest
  ok ((message, keys) ∷ others)

abbrev pub all_identifiers : List (Bytes × List String) → List String
all_identifiers [] = []
all_identifiers ((_, is) ∷ rest) = is ++ all_identifiers rest

module _ (env : Environment) where
  unfoldable pub sign_with_keys : Bytes → List Bytes → Exec InstructionError (List Bytes)
  sign_with_keys message [] = ok []
  sign_with_keys message (key ∷ keys) = do
    signature ← ok_or (env.sign_wrapped key message) instruction_hsm_error
    rest ← sign_with_keys message keys
    ok (signature ∷ rest)

  unfoldable pub sign_all : List (Bytes × List Bytes) → Exec InstructionError (List (List Bytes))
  sign_all [] = ok []
  sign_all ((message, keys) ∷ rest) = do
    first ← sign_with_keys message keys
    others ← sign_all rest
    ok (first ∷ others)

  unfoldable pub handle_sign :
      WalletUser → List (Bytes × List String) → Db → Exec InstructionError InstructionResult
  handle_sign user messages db = do
    db_call env begin_keys (storage transaction)
    db_call env find_keys (storage execution)
    let found = find_keys_by_identifiers user.id (all_identifiers messages) db
    db_call env commit_keys (storage transaction)
    keys ← all_wrapped_keys found messages
    signed ← sign_all keys
    ok (signatures signed)

  -- The result, with the keys that are committed.
  unfoldable pub generate_keys :
      (ℕ → ℕ)
      → WalletUser
      → List String
      → Db
      → Exec InstructionError (InstructionResult × List KeyRow)
  generate_keys uuid user identifiers db = do
    keys ← ok_or (env.generate_wrapped_keys identifiers) instruction_hsm_error
    db_call env begin_keys (storage transaction)
    db_call env save_keys (storage execution)
    rows ←
        ok_or (create_keys (record { wallet_user_id = user.id; keys = stored_part uuid 0 keys }) db)
          (storage execution)
    db_call env commit_keys (storage transaction)
    ok (public_keys (public_part keys), rows)

  -- Without a commit the database stays.
  abbrev pub committed :
      Db
      → Exec InstructionError (InstructionResult × List KeyRow)
      → Exec InstructionError InstructionResult × Db
  committed db (ok (r, rows)) = (ok r, record db { keys = rows })
  committed db (err e) = (err e, db)
  committed db panic = (panic, db)

  unfoldable pub handle :
      (ℕ → ℕ) → WalletUser → InstructionPayload → Db → Exec InstructionError InstructionResult × Db
  handle uuid user check_pin db = (ok pin_checked, db)
  handle uuid user (generate_key identifiers) db =
      committed db (generate_keys uuid user identifiers db)
  handle uuid user (sign messages) db = (handle_sign user messages db, db)
