-- ===== src/WalletProvider/AccountServer/Register.antt =====
-- `register`, `new_wallet_certificate` and `verify_registration_challenge`.
pub mod Registered
use nl_wallet.Base.{
  ℕ, ◌<◌, ◌≡◌, ◌≢◌, ◌⊎◌, refl, sym, ap, ◌∙◌, Bool, true, false, inl, inr, Option, some, none,
  String, Bytes, List, Exec, ok, err, panic, ok_or, ok_or-ok, map_err, map_err-ok, ◌>>=◌, ◌>>◌,
  >>=-ok, arith,
}
use nl_wallet.WalletCommon.Signed.{
  ChallengeResponsePayload, equal_to, dangerous_parse_unverified, parse_and_verify,
}
use nl_wallet.WalletProvider.Users.{
  Db, UserRow, WalletUserCreate, create_wallet_user, new_row, find_row,
}
use nl_wallet.WalletProvider.AccountServer.{
  Environment, Registration, RegistrationError, WalletCertificateClaims, challenge_decoding,
  challenge_invalid, message_parsing, message_validation, jwt_signing, registration_hsm_error,
  certificate_storage, registration_certificate, transaction, execution, Decision, reject, proceed,
  settle, db_call, begin, create_user, commit,
}
use nl_wallet.WalletProvider.AccountServer.Certificate.{sign_pin_pubkey}

abbrev wallet_certificate_version : ℕ
wallet_certificate_version = 0

-- The registration message, and the identifier that the server generates.
pub record RegistrationRequest : Type 0 where
  pub message : String
  pub uuid : ℕ

module _ (env : Environment) where
  -- The wallet identifier of the challenge's claims.
  unfoldable pub verify_registration_challenge : Bytes → Exec RegistrationError String
  verify_registration_challenge challenge = do
    text ← ok_or (env.from_utf8 challenge) challenge_decoding
    ok_or (env.parse_registration_challenge text) challenge_invalid

  unfoldable pub new_wallet_certificate : String → Bytes → Bytes → Exec RegistrationError String
  new_wallet_certificate wallet_id hw_pubkey pin_pubkey = do
    pin_pubkey_hash ← map_err registration_certificate (sign_pin_pubkey env pin_pubkey)
    ok_or
        (env.sign_certificate (record {
          wallet_id = wallet_id;
          hw_pubkey = hw_pubkey;
          pin_pubkey_hash = pin_pubkey_hash;
          version = wallet_certificate_version;
        }))
        jwt_signing

  -- The checks before the transaction: the wallet's identifier, and its keys.
  unfoldable pub verify_registration : String → Exec RegistrationError (String × Registration)
  verify_registration message = do
    unverified ← map_err message_parsing (dangerous_parse_unverified env.registration_codec message)
    wallet_id ← verify_registration_challenge unverified.challenge
    _ ← map_err message_validation (
        parse_and_verify env.registration_codec message unverified.challenge (equal_to 0)
          unverified.payload.hw_pubkey unverified.payload.pin_pubkey)
    ok (wallet_id, unverified.payload)

  unfoldable pub create_user_transaction :
      ℕ
      → String
      → Registration
      → Db
      → Exec RegistrationError (Decision RegistrationError String × Db)
  create_user_transaction uuid wallet_id keys db = do
    encrypted_pin_pubkey ← ok_or (env.encrypt keys.pin_pubkey) registration_hsm_error
    db_call env begin (certificate_storage transaction)
    db_call env create_user (certificate_storage execution)
    db' ←
        ok_or
          (create_wallet_user
            (record {
              id = uuid;
              wallet_id = wallet_id;
              hw_pubkey = keys.hw_pubkey;
              encrypted_pin_pubkey = encrypted_pin_pubkey;
            })
            db)
          (certificate_storage execution)
    certificate ← new_wallet_certificate wallet_id keys.hw_pubkey keys.pin_pubkey
    db_call env commit (certificate_storage transaction)
    ok (proceed certificate, db')

  unfoldable pub registration_transaction :
      RegistrationRequest → Db → Exec RegistrationError (Decision RegistrationError String × Db)
  registration_transaction q db = do
    (wallet_id, keys) ← verify_registration q.message
    create_user_transaction q.uuid wallet_id keys db

  unfoldable pub register : RegistrationRequest → Db → Exec RegistrationError String × Db
  register q db =
      settle db (registration_transaction q db) (λ certificate db'. (ok certificate, db'))
