-- ===== src/SessionStore.antt =====
-- The session stores of the issuer and the verifier: mdoc/src/server_state.rs. `Memory` is the store in
-- memory, `Postgres` the one in wallet_server/src/store/postgres.rs. `Interface` is what the issuer
-- and the verifier call and rely on.
-- Times and durations are milliseconds; a cutoff `now - t` is compared as `last_active + t` with `now`.
-- The cleanup task only calls `cleanup` at intervals.
pub mod Memory
pub mod Postgres
pub mod Interface
use nl_wallet.Base.{ℕ, ◌+◌, Bool, true, false, ◌&&◌, not, String, ltb, Option, Exec, ◌≡◌, ◌≢◌, some}

pub data Progress : Type 0 where
  active : Progress
  finished : Bool → Progress

-- `HasProgress` and `Expirable`
pub record SessionData (T : Type 0) : Type 0 where
  pub progress : T → Progress
  pub is_expired : T → Bool
  pub expire : T → T

pub record SessionState (T : Type 0) : Type 0 where
  pub data_of : T
  pub token : String
  pub last_active : ℕ

pub data SessionStoreError : Type 0 where
  duplicate_token : String → SessionStoreError
  serialize deserialize other : SessionStoreError

pub record SessionStoreTimeouts : Type 0 where
  pub expiration : ℕ
  pub successful_deletion : ℕ
  pub failed_deletion : ℕ

abbrev pub is_active : Progress → Bool
is_active active = true
is_active (finished _) = false

-- `last_active < now - t`
abbrev pub is_older : ℕ → ℕ → ℕ → Bool
is_older now t last_active = ltb (last_active + t) now
