-- ===== src/SessionStore/Postgres.antt =====
-- `PostgresSessionStore`: wallet_server/src/store/postgres.rs.
-- The table `session_state` as a list of rows. Its status column holds the name of a `SessionStatus`,
-- which strum prints and parses, and is that status here.
pub mod Rows
use nl_wallet.Base.{
  ℕ, ◌-◌, ltb, Bool, true, false, ◌&&◌, ◌||◌, not, Option, none, some, String, str_eq, List, [],
  ◌∷◌, map, filter, if◌then◌else◌, is_some, Exec, ok, err, guard, ok_or, ◌>>=◌, ◌>>◌,
}
use nl_wallet.SessionStore.{
  Progress, active, finished, SessionData, SessionState, SessionStoreError, duplicate_token,
  serialize, deserialize, other, SessionStoreTimeouts,
}

pub data SessionStatus : Type 0 where
  status_active succeeded failed expired : SessionStatus

abbrev pub same_status : SessionStatus → SessionStatus → Bool
same_status status_active status_active = true
same_status succeeded succeeded = true
same_status failed failed = true
same_status expired expired = true
same_status _ _ = false

abbrev pub status_of : Progress → SessionStatus
status_of active = status_active
status_of (finished true) = succeeded
status_of (finished false) = failed

-- A row of `session_state`, its data as the text of a JSON value.
pub record Row : Type 0 where
  pub typ : String
  pub token : String
  pub data_of : String
  pub status : SessionStatus
  pub last_active_date_time : ℕ

-- serde_json at the type of the sessions, `SessionDataType::TYPE`, and the time that is left of one that the
-- database is given, which it keeps to the microsecond.
pub record Json (T : Type 0) : Type 0 where
  pub to_value : T → Option String
  pub from_value : String → Option T
  pub typ : String
  pub to_column : ℕ → ℕ

abbrev pub has_key : String → String → Row → Bool
has_key typ token r = str_eq r.typ typ && str_eq r.token token

unfoldable pub find_by_id : String → String → List Row → Option Row
find_by_id typ token [] = none
find_by_id typ token (r ∷ rs) = if has_key typ token r then some r else find_by_id typ token rs

-- The columns that `on_conflict` updates.
abbrev pub with_columns : Row → Row → Row
with_columns new r = record r {
  data_of = new.data_of;
  last_active_date_time = new.last_active_date_time;
}

-- `INSERT … ON CONFLICT … DO UPDATE`
unfoldable pub upsert : Row → List Row → List Row
upsert new [] = new ∷ []
upsert new (r ∷ rs) =
    if has_key new.typ new.token r then with_columns new r ∷ rs else r ∷ upsert new rs

-- `db_ok`: whether the database answers.
module _ {T : Type 0} (ops : SessionData T) (json : Json T) (db_ok : Bool) where
  unfoldable pub decode : Option Row → Exec SessionStoreError (Option (SessionState T))
  decode none = ok none
  decode (some r) = do
    value ← ok_or (json.from_value r.data_of) deserialize
    let data_of = if same_status r.status expired then ops.expire value else value
    ok (some (record { data_of = data_of; token = r.token; last_active = r.last_active_date_time }))

  unfoldable pub get : String → List Row → Exec SessionStoreError (Option (SessionState T))
  get token rows = do guard db_ok other; decode (find_by_id json.typ token rows)

  abbrev pub new_row : SessionState T → String → Row
  new_row session value = record {
    typ = json.typ;
    token = session.token;
    data_of = value;
    status = status_of (ops.progress session.data_of);
    last_active_date_time = json.to_column session.last_active;
  }

  unfoldable pub execute : Row → Bool → List Row → Exec SessionStoreError (List Row)
  execute row is_new rows = do
    guard db_ok other
    if is_new && is_some (find_by_id row.typ row.token rows)
        then err (duplicate_token row.token)
        else ok (upsert row rows)

  unfoldable pub write : SessionState T → Bool → List Row → Exec SessionStoreError (List Row)
  write session is_new rows = do
    value ← ok_or (json.to_value session.data_of) serialize
    execute (new_row session value) is_new rows

  -- `last_active_date_time < now - t`, with the cutoff as the database gets it.
  abbrev pub is_before : ℕ → ℕ → ℕ → Bool
  is_before now t last_active = ltb last_active (json.to_column (now - t))

  -- The two deletions and the update of the transaction.
  abbrev pub is_kept : SessionStoreTimeouts → ℕ → Row → Bool
  is_kept timeouts now r =
      not (
        str_eq r.typ json.typ
        && (same_status r.status succeeded
            && is_before now timeouts.successful_deletion r.last_active_date_time))
      && not (
          str_eq r.typ json.typ
          && ((same_status r.status failed || same_status r.status expired)
              && is_before now timeouts.failed_deletion r.last_active_date_time))

  abbrev pub expire_row : SessionStoreTimeouts → ℕ → Row → Row
  expire_row timeouts now r =
      if str_eq r.typ json.typ
        && (same_status r.status status_active
            && is_before now timeouts.expiration r.last_active_date_time)
      then record r { status = expired; last_active_date_time = json.to_column now }
      else r

  unfoldable pub cleanup : SessionStoreTimeouts → ℕ → List Row → Exec SessionStoreError (List Row)
  cleanup timeouts now rows = do
    guard db_ok other
    ok (map (expire_row timeouts now) (filter (is_kept timeouts now) rows))
