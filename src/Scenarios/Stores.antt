-- ===== src/Scenarios/Stores.antt =====
-- The session stores with one session.
use nl_wallet.Base.{
  ◌*◌, ◌/◌, ◌≡◌, ◌≢◌, ◌⊎◌, refl, subst, Bool, true, false, Option, none, some, String, List, [],
  ◌∷◌, ok, err, arith, is_some,
}
use nl_wallet.SessionStore.{active, finished, SessionData, SessionState, duplicate_token}
use nl_wallet.SessionStore.Memory.{get_session, write, cleanup}
use nl_wallet.SessionStore.Memory.Cleanup.{IsMap, empty, entry, cleaned, get-cleanup, get-write}
use nl_wallet.SessionStore.Postgres.{
  Row, Json, status_active, expired, same_status, find_by_id, upsert, execute, get as get_row,
  write as write_row, cleanup as cleanup_rows,
}
use nl_wallet.SessionStore.Postgres.Rows.{IsJson, get-write_stored, cleanup-write_finished}
use nl_wallet.Openid4vc.Issuer.{IssuanceData, issuance_data}
use nl_wallet.Scenarios.Issuance.{timeouts, session, store}

store-IsMap : IsMap store
unfolding get_session
store-IsMap = entry session [] refl empty

get-cleanup_example :
    (get_session "code" (cleanup issuance_data timeouts 2000 store)
      ≡ cleaned issuance_data timeouts 2000 (get_session "code" store))
    × IsMap (cleanup issuance_data timeouts 2000 store)
get-cleanup_example = get-cleanup issuance_data timeouts 2000 "code" store store-IsMap

get-write_example :
    ((true ≡ true)
      × (is_some (get_session "code" store) ≡ true)
      × (write session true store ≡ err (duplicate_token "code")))
    ⊎ ((after : List (SessionState IssuanceData)) × (write session true store ≡ ok after)
        × (true ≡ true → get_session "code" store ≡ none)
        × (get_session "code" after ≡ some session)
        × ((t : String) → t ≢ "code" → get_session t after ≡ get_session t store)
        × IsMap after)
get-write_example = get-write session true store store-IsMap

-- The toy data of a session in a table: whether it has finished.
abbrev toy : SessionData (Option Bool)
toy = record {
  progress = λ d. elim d [ none ↦ active | some b ↦ finished b ];
  is_expired = λ _. false;
  expire = λ _. some false;
}

abbrev json : Json (Option Bool)
json = record {
  to_value = λ d. elim d [ some true ↦ some "true" | some false ↦ none | none ↦ none ];
  from_value = λ _. some (some true);
  typ = "issuance";
  to_column = λ t. 10 * (t / 10);
}

json-IsJson : IsJson json
json-IsJson = record { read_back = read }
  where
    read : (d : Option Bool) (v : String) → json.to_value d ≡ some v → json.from_value v ≡ some d
    read (some true) v e = refl
    read (some false) v e = cc
    read none v e = cc

abbrev table_row : Row
table_row = record {
  typ = "issuance";
  token = "code";
  data_of = "null";
  status = status_active;
  last_active_date_time = 90;
}

abbrev finished_row : Row
finished_row = record table_row { data_of = "true"; last_active_date_time = 100 }

abbrev finished_session : SessionState (Option Bool)
finished_session = record { data_of = some true; token = "code"; last_active = 105 }

row_found : find_by_id "issuance" "code" (table_row ∷ []) ≡ some table_row
unfolding find_by_id
row_found = refl

row_written :
    write_row toy json true finished_session false (table_row ∷ []) ≡ ok (finished_row ∷ [])
unfolding write_row execute upsert find_by_id
row_written = refl

row_expired :
    cleanup_rows toy json true timeouts 2000 (finished_row ∷ [])
    ≡ ok (record finished_row { status = expired; last_active_date_time = 2000 } ∷ [])
unfolding cleanup_rows
row_expired = refl

row_open :
    (r : Row)
    → find_by_id "issuance" "code" (table_row ∷ []) ≡ some r
    → same_status r.status expired ≡ false
row_open r e =
    let same : table_row ≡ r = ground (arith, row_found) in
    subst (λ x. same_status x.status expired ≡ false) same refl

get-write_stored_example :
    get_row toy json true "code" (finished_row ∷ [])
    ≡ ok (some (record finished_session { last_active = 100 }))
get-write_stored_example =
    get-write_stored toy json finished_session false (table_row ∷ []) (finished_row ∷ [])
      json-IsJson row_open row_written

cleanup-write_finished_example :
    get_row toy json true "code"
      (record finished_row { status = expired; last_active_date_time = 2000 } ∷ [])
    ≡ ok (some (record { data_of = some false; token = "code"; last_active = 2000 }))
cleanup-write_finished_example =
    cleanup-write_finished toy json timeouts 2000 finished_session table_row (table_row ∷ [])
      (finished_row ∷ [])
      (record finished_row { status = expired; last_active_date_time = 2000 } ∷ []) json-IsJson
      row_found refl row_written (omega arith) row_expired
