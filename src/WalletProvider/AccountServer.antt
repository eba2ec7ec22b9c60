-- ===== src/WalletProvider/AccountServer.antt =====
-- The account server of the wallet provider: wallet_provider/service/src/account_server.rs and
-- instructions.rs. Here: its errors, and what its handlers are given.
-- A handler takes the committed database and returns its result with the database afterwards. What a
-- transaction did is dropped where the code returns before `commit`.
pub mod Certificate
pub mod Challenge
pub mod Instruct
pub mod Ends
pub mod Refusals
pub mod Outcome
pub mod Retries
pub mod Replay
pub mod Register
use nl_wallet.Base.{
  ℕ, Bool, true, false, Option, none, some, String, Bytes, List, Exec, ok, err, panic, guard,
}
use nl_wallet.WalletCommon.Signed.{Codec, SignedError}
use nl_wallet.WalletProvider.PinPolicy.{
  PinPolicyEvaluation, failed, timeout, in_timeout, blocked_permanently,
}
use nl_wallet.WalletProvider.Users.{Db, Encrypted}

pub data PersistenceError : Type 0 where
  transaction execution : PersistenceError

pub data WalletCertificateError : Type 0 where
  pin_pub_key_decoding hw_pub_key_mismatch pin_pub_key_mismatch validation : WalletCertificateError
  user_not_registered user_blocked certificate_hsm_error : WalletCertificateError
  persistence : PersistenceError → WalletCertificateError

pub data ChallengeError : Type 0 where
  challenge_storage : PersistenceError → ChallengeError
  challenge_validation : ChallengeError
  challenge_certificate : WalletCertificateError → ChallengeError
  sequence_number_validation : ChallengeError

pub data RegistrationError : Type 0 where
  challenge_decoding challenge_invalid jwt_signing registration_hsm_error : RegistrationError
  message_parsing message_validation : SignedError → RegistrationError
  certificate_storage : PersistenceError → RegistrationError
  registration_certificate : WalletCertificateError → RegistrationError

pub data InstructionValidationError : Type 0 where
  challenge_mismatch challenge_timeout validation_hsm_error : InstructionValidationError
  verification_failed : SignedError → InstructionValidationError

-- `incorrect_pin left final`, and `pin_timeout` with the milliseconds left.
pub data InstructionError : Type 0 where
  wallet_certificate : WalletCertificateError → InstructionError
  instruction_validation : InstructionValidationError → InstructionError
  incorrect_pin : ℕ → Bool → InstructionError
  pin_timeout : ℕ → InstructionError
  account_blocked result_signing instruction_hsm_error : InstructionError
  storage : PersistenceError → InstructionError

-- `From<PinPolicyEvaluation>`
abbrev pub error_of_evaluation : PinPolicyEvaluation → InstructionError
error_of_evaluation (failed left final) = incorrect_pin left final
error_of_evaluation (timeout t) = pin_timeout t
error_of_evaluation (in_timeout t) = pin_timeout t
error_of_evaluation blocked_permanently = account_blocked

pub data InstructionPayload : Type 0 where
  check_pin : InstructionPayload
  generate_key : List String → InstructionPayload
  sign : List (Bytes × List String) → InstructionPayload

pub data InstructionResult : Type 0 where
  pin_checked : InstructionResult
  public_keys : List (String × Bytes) → InstructionResult
  signatures : List (List Bytes) → InstructionResult

pub record Registration : Type 0 where
  pub pin_pubkey : Bytes
  pub hw_pubkey : Bytes

pub record WalletCertificateClaims : Type 0 where
  pub wallet_id : String
  pub hw_pubkey : Bytes
  pub pin_pubkey_hash : Bytes
  pub version : ℕ

-- The calls of the database that a handler makes, each of which may fail.
pub data DbCall : Type 0 where
  begin_lookup find_user commit_lookup : DbCall
  begin clear_challenge reset_pins write_sequence register_pin write_challenge create_user commit :
      DbCall
  begin_keys save_keys find_keys commit_keys : DbCall

-- The libraries and services that the server calls: JSON web tokens, the HSM, the database. A JWT reader
-- has the key that it verifies with.
pub record Environment : Type 0 where
  pub codec : Codec InstructionPayload
  pub registration_codec : Codec Registration
  pub parse_certificate : String → Option WalletCertificateClaims
  pub parse_challenge_request : String → Bytes → Option ℕ
  pub from_utf8 : Bytes → Option String
  pub parse_registration_challenge : String → Option String
  pub sign_certificate : WalletCertificateClaims → Option String
  pub sign_result : InstructionResult → Option String
  pub to_public_key_der : Bytes → Option Bytes
  pub decrypt : Encrypted → Option Bytes
  pub encrypt : Bytes → Option Encrypted
  pub sign_hmac : Bytes → Option Bytes
  pub verify_hmac : Bytes → Bytes → Bool
  pub generate_wrapped_keys : List String → Option (List (String × Bytes × Bytes))
  pub sign_wrapped : Bytes → Bytes → Option Bytes
  pub db_ok : DbCall → Bool

-- `Instruction<I>`: the signed message and the wallet certificate.
pub record Instruction : Type 0 where
  pub instruction : String
  pub certificate : String

-- A step of a transaction that the database may refuse.
abbrev pub db_call {ℓ} : {E : Type ℓ} → Environment → DbCall → E → Exec E (Unit {0})
db_call env call e = guard (env.db_ok call) e

-- What a transaction decides: an error after all, or to go on with a value.
pub data Decision (E A : Type 0) : Type 0 where
  reject : E → Decision E A
  proceed : A → Decision E A

-- The end of a transaction that started from `db`: rolled back if the code returned before `commit`,
-- and otherwise committed, with the rest of the handler to come.
abbrev pub settle :
    {E A B : Type 0} → Db → Exec E (Decision E A × Db) → (A → Db → Exec E B × Db) → Exec E B × Db
settle db (err e) rest = (err e, db)
settle db panic rest = (panic, db)
settle db (ok (reject e, db')) rest = (err e, db')
settle db (ok (proceed a, db')) rest = rest a db'
