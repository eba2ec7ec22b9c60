-- ===== src/SessionStore/Memory.antt =====
-- `MemorySessionStore`: a map from tokens to sessions, as a list in which a token stands once.
pub mod Cleanup
use nl_wallet.Base.{
  ℕ, Bool, true, false, ◌&&◌, ◌||◌, not, Option, none, some, String, str_eq, List, [], ◌∷◌, map,
  filter, if◌then◌else◌, is_some, Exec, ok, err,
}
use nl_wallet.SessionStore.{
  Progress, active, finished, SessionData, SessionState, SessionStoreError, duplicate_token,
  SessionStoreTimeouts, is_active, is_older,
}

module _ {T : Type 0} where
  unfoldable pub get_session : String → List (SessionState T) → Option (SessionState T)
  get_session t [] = none
  get_session t (s ∷ ss) = if str_eq s.token t then some s else get_session t ss

  -- `Entry::insert`: in place of the session under the same token, or as a new entry.
  unfoldable pub insert_entry : SessionState T → List (SessionState T) → List (SessionState T)
  insert_entry s [] = s ∷ []
  insert_entry s (r ∷ rs) = if str_eq r.token s.token then s ∷ rs else r ∷ insert_entry s rs

  unfoldable pub write :
      SessionState T → Bool → List (SessionState T) → Exec SessionStoreError (List (SessionState T))
  write s is_new store =
      if is_some (get_session s.token store) && is_new
      then err (duplicate_token s.token)
      else ok (insert_entry s store)

module _ {T : Type 0} (ops : SessionData T) (timeouts : SessionStoreTimeouts) (now : ℕ) where
  -- The arms of the `match` on progress and expiry.
  unfoldable pub is_retained : SessionState T → Bool
  is_retained s = elim (ops.is_expired s.data_of) [
    | true ↦ not (is_older now timeouts.failed_deletion s.last_active)
    | false ↦ elim (ops.progress s.data_of) [
      | finished true ↦ not (is_older now timeouts.successful_deletion s.last_active)
      | finished false ↦ not (is_older now timeouts.failed_deletion s.last_active)
      | active ↦ true
    ]
  ]

  unfoldable pub expire_stale : SessionState T → SessionState T
  expire_stale s =
      if (not (ops.is_expired s.data_of) && is_active (ops.progress s.data_of))
        && is_older now timeouts.expiration s.last_active
      then record { data_of = ops.expire s.data_of; token = s.token; last_active = now }
      else s

  unfoldable pub cleanup : List (SessionState T) → List (SessionState T)
  cleanup store = map expire_stale (filter is_retained store)
