-- ===== src/SessionStore/Postgres/Rows.antt =====
-- What the rows hold after a write, and after a cleanup that follows.
use nl_wallet.Base.{
  ℕ, ◌-◌, ◌<◌, ◌≡◌, inl, inr, refl, subst, Bool, true, false, ◌&&◌, Bool-cases, Option, none, some,
  String, str_eq, eq_iff, List, [], ◌∷◌, map, filter, ok, ok_or, ok_or-ok, >>=-ok, lt→ltb, arith,
}
use nl_wallet.SessionStore.{
  active, finished, SessionData, SessionState, serialize, SessionStoreTimeouts,
}
use nl_wallet.SessionStore.Postgres.{
  status_active, expired, same_status, status_of, Row, Json, has_key, find_by_id, with_columns,
  upsert, decode, get, new_row, execute, write, is_before, is_kept, expire_row, cleanup,
}

-- The row that an upsert leaves under its key.
abbrev upserted : Row → Option Row → Row
upserted new none = new
upserted new (some r) = with_columns new r

find-upsert :
    (new : Row) (rows : List Row)
    → find_by_id new.typ new.token (upsert new rows)
      ≡ some (upserted new (find_by_id new.typ new.token rows))
unfolding find_by_id upsert
find-upsert new [] = rw ((eq_iff new.typ new.typ).1 refl, (eq_iff new.token new.token).1 refl) refl
find-upsert new (r ∷ rs) = ground (arith, find-upsert new rs)

-- Where a row is kept and changed under its own key, its key finds the changed row.
find-changed :
    (p : Row → Bool) (f : Row → Row) (typ token : String) (r : Row) (rows : List Row)
    → ((x : Row) → has_key typ token (f x) ≡ has_key typ token x)
    → find_by_id typ token rows ≡ some r
    → p r ≡ true
    → find_by_id typ token (map f (filter p rows)) ≡ some (f r)
unfolding find_by_id
find-changed p f typ token r [] keeps e k = cc
find-changed p f typ token r (x ∷ rs) keeps e k =
    let rest = find-changed p f typ token r rs keeps in
    let same = keeps x in ground (arith, rest, same)

module _ {T : Type 0} (ops : SessionData T) (json : Json T) (timeouts : SessionStoreTimeouts) where
  expire_row-has_key :
      (now : ℕ) (typ token : String) (r : Row)
      → has_key typ token (expire_row ops json true timeouts now r) ≡ has_key typ token r
  expire_row-has_key now typ token r =
      elim (Bool-cases (
        str_eq r.typ json.typ
        && (same_status r.status status_active
            && is_before ops json true now timeouts.expiration r.last_active_date_time))) [
              | inl e ↦ rw e refl
              | inr e ↦ rw e refl
            ]

  -- A finished session over an active row: the row as it is written.
  written :
      (s : SessionState T) (r : Row) (rows after : List Row)
      → find_by_id json.typ s.token rows ≡ some r
      → write ops json true s false rows ≡ ok after
      → (value : String) × (json.to_value s.data_of ≡ some value)
        × (find_by_id json.typ s.token after
            ≡ some (with_columns (new_row ops json true s value) r))
  unfolding write execute
  written s r rows after h e =
      let (value, v, e1) = >>=-ok (ok_or (json.to_value s.data_of) serialize) _ e in
      let stored = find-upsert (new_row ops json true s value) rows in
      (value, ok_or-ok (json.to_value s.data_of) serialize v, ground (arith, stored))

  kept_active :
      (now : ℕ) (r : Row) → r.status ≡ status_active → is_kept ops json true timeouts now r ≡ true
  kept_active now r e =
      rw e (elim (Bool-cases (str_eq r.typ json.typ)) [ inl t ↦ rw t refl | inr t ↦ rw t refl ])

find_by_id-key :
    (typ token : String) (rows : List Row) (r : Row)
    → find_by_id typ token rows ≡ some r
    → (r.typ ≡ typ) × (r.token ≡ token)
unfolding find_by_id
find_by_id-key typ token [] r e = cc
find_by_id-key typ token (x ∷ rs) r e = elim (Bool-cases (has_key typ token x)) [
  | inl h ↦
      let same : x ≡ r = ground arith in
      let both : (str_eq x.typ typ ≡ true) × (str_eq x.token token ≡ true) =
        (ground arith, ground arith) in
      subst (λ y. (y.typ ≡ typ) × (y.token ≡ token)) same
        ((eq_iff x.typ typ).0 both.0, (eq_iff x.token token).0 both.1)
  | inr h ↦ find_by_id-key typ token rs r (ground arith)
]

-- serde_json reads back the values that it prints.
pub record IsJson {T : Type 0} (json : Json T) : Type 0 where
  pub read_back : (d : T) (v : String) → json.to_value d ≡ some v → json.from_value v ≡ some d

module _ {T : Type 0} (ops : SessionData T) (json : Json T) (laws : IsJson json) where
  upserted_read :
      (s : SessionState T) (value : String) (old : Option Row)
      → json.to_value s.data_of ≡ some value
      → ((r : Row) → old ≡ some r → (r.token ≡ s.token) × (same_status r.status expired ≡ false))
      → decode ops json true (some (upserted (new_row ops json true s value) old))
        ≡ ok (some (record s { last_active = json.to_column s.last_active }))
  unfolding decode
  upserted_read s value none v open_row =
      let read = laws.read_back s.data_of value v in
      elim (ops.progress s.data_of)
        as (λ p.
          decode ops json true
            (some (record (new_row ops json true s value) { status = status_of p }))
          ≡ ok (some (record s { last_active = json.to_column s.last_active }))) [
            | active ↦ rw read refl
            | finished true ↦ rw read refl
            | finished false ↦ rw read refl
          ]
  upserted_read s value (some r) v open_row =
      rw (laws.read_back s.data_of value v, (open_row r refl).0, (open_row r refl).1) refl

  get_upserted :
      (s : SessionState T) (value : String) (is_new : Bool) (rows after : List Row)
      → json.to_value s.data_of ≡ some value
      → ((r : Row)
          → find_by_id json.typ s.token rows ≡ some r
          → same_status r.status expired ≡ false)
      → execute ops json true (new_row ops json true s value) is_new rows ≡ ok after
      → get ops json true s.token after
        ≡ ok (some (record s { last_active = json.to_column s.last_active }))
  unfolding execute get
  get_upserted s value is_new rows after v open_row e =
      let same : upsert (new_row ops json true s value) rows ≡ after = ground arith in
      rw (← same, find-upsert (new_row ops json true s value) rows)
        (upserted_read s value (find_by_id json.typ s.token rows) v
          (λ r h. ((find_by_id-key json.typ s.token rows r h).1, open_row r h)))

-- If serde_json reads back what it prints and the database answers, then a session that was written to
-- PostgreSQL, as a new one or over a row that is not expired, is read back as it was, but for its last
-- activity, which is the one that the column keeps.
pub get-write_stored :
    {T : Type 0} (ops : SessionData T) (json : Json T) (s : SessionState T) (is_new : Bool)
    (rows after : List Row)
    → IsJson json
    → ((r : Row) → find_by_id json.typ s.token rows ≡ some r → same_status r.status expired ≡ false)
    → write ops json true s is_new rows ≡ ok after
    → get ops json true s.token after
      ≡ ok (some (record s { last_active = json.to_column s.last_active }))
unfolding write
get-write_stored ops json s is_new rows after laws open_row e =
    let (value, v, e1) = >>=-ok (ok_or (json.to_value s.data_of) serialize) _ e in
    get_upserted ops json laws s value is_new rows after
      (ok_or-ok (json.to_value s.data_of) serialize v) open_row e1

-- If serde_json reads back what it prints and the database answers: a session that is written over an
-- active row of PostgreSQL, finished or not, keeps the status of that
-- row: once its column is below the cutoff of the expiration timeout, as the
-- database compares them, a cleanup makes it expired.
pub cleanup-write_finished :
    {T : Type 0} (ops : SessionData T) (json : Json T) (timeouts : SessionStoreTimeouts) (now : ℕ)
    (s : SessionState T) (r : Row) (rows after cleaned : List Row)
    → IsJson json
    → find_by_id json.typ s.token rows ≡ some r
    → r.status ≡ status_active
    → write ops json true s false rows ≡ ok after
    → json.to_column s.last_active < json.to_column (now - timeouts.expiration)
    → cleanup ops json true timeouts now after ≡ ok cleaned
    → get ops json true s.token cleaned
      ≡ ok (
          some (record {
            data_of = ops.expire s.data_of;
            token = s.token;
            last_active = json.to_column now;
          }))
unfolding cleanup get decode
cleanup-write_finished ops json timeouts now s r rows after cleaned laws h a e late c =
    let (value, v, stored) = written ops json timeouts s r rows after h e in
    let (typed, named) = find_by_id-key json.typ s.token rows r h in
    let kept =
      kept_active ops json timeouts now (with_columns (new_row ops json true s value) r) a in
    let found =
      find-changed (is_kept ops json true timeouts now) (expire_row ops json true timeouts now)
        json.typ s.token (with_columns (new_row ops json true s value) r) after
        (expire_row-has_key ops json timeouts now json.typ s.token) stored kept in
    let same : map (expire_row ops json true timeouts now)
          (filter (is_kept ops json true timeouts now) after)
        ≡ cleaned =
      ground arith in
    rw
      (
        ← same,
        found,
        a,
        typed,
        (eq_iff json.typ json.typ).1 refl,
        lt→ltb (json.to_column s.last_active) (json.to_column (now - timeouts.expiration)) late,
        named,
        laws.read_back s.data_of value v,
      )
      refl
