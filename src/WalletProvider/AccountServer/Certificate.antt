-- ===== src/WalletProvider/AccountServer/Certificate.antt =====
-- The wallet certificate and the PIN key's HMAC: `verify_wallet_certificate`, `new_wallet_certificate`.
pub mod Owner
use nl_wallet.Base.{
  Bool, true, false, not, if◌then◌else◌, String, Bytes, bytes_eq, Exec, ok, err, panic, ok_or,
  guard, ◌>>=◌, ◌>>◌,
}
use nl_wallet.WalletProvider.Users.{
  Db, WalletUser, WalletUserQueryResult, found, not_found, blocked, find_wallet_user_by_wallet_id,
}
use nl_wallet.WalletProvider.AccountServer.{
  Environment, WalletCertificateClaims, WalletCertificateError, pin_pub_key_decoding,
  hw_pub_key_mismatch, pin_pub_key_mismatch, validation, user_not_registered, user_blocked,
  certificate_hsm_error, persistence, transaction, execution, db_call, begin_lookup, find_user,
  commit_lookup,
}

module _ (env : Environment) where
  unfoldable pub sign_pin_pubkey : Bytes → Exec WalletCertificateError Bytes
  sign_pin_pubkey pubkey = do
    der ← ok_or (env.to_public_key_der pubkey) pin_pub_key_decoding
    ok_or (env.sign_hmac der) certificate_hsm_error

  unfoldable pub verify_pin_pubkey : Bytes → Bytes → Exec WalletCertificateError (Unit {0})
  verify_pin_pubkey pubkey pin_pubkey_hash = do
    der ← ok_or (env.to_public_key_der pubkey) pin_pub_key_decoding
    guard (env.verify_hmac der pin_pubkey_hash) certificate_hsm_error

  -- The arms of the `match` on what the database found.
  unfoldable pub check_user :
      WalletCertificateClaims → WalletUserQueryResult → Exec WalletCertificateError WalletUser
  check_user claims not_found = err user_not_registered
  check_user claims blocked = err user_blocked
  check_user claims (found user) = do
    pin_pubkey ← ok_or (env.decrypt user.encrypted_pin_pubkey) certificate_hsm_error
    elim (verify_pin_pubkey pin_pubkey claims.pin_pubkey_hash) [
      | err _ ↦ err pin_pub_key_mismatch
      | panic ↦ panic
      | ok _ ↦
          if not (bytes_eq user.hw_pubkey claims.hw_pubkey)
          then err hw_pub_key_mismatch
          else ok user
    ]

  unfoldable pub verify_wallet_certificate : String → Db → Exec WalletCertificateError WalletUser
  verify_wallet_certificate certificate db = do
    claims ← ok_or (env.parse_certificate certificate) validation
    db_call env begin_lookup (persistence transaction)
    db_call env find_user (persistence execution)
    db_call env commit_lookup (persistence transaction)
    check_user claims (find_wallet_user_by_wallet_id claims.wallet_id db)
