-- ===== src/WalletProvider/AccountServer/Certificate/Owner.antt =====
-- The user that a wallet certificate stands for.
use nl_wallet.Base.{
  ◌≡◌, ap, true, guard-ok, ◌∙◌, false, some, String, Bytes, bytes_eq_iff, ok, ok_or, >>=-ok,
  ok_or-ok, arith,
}
use nl_wallet.WalletProvider.Users.{
  Db, UserRow, WalletUser, WalletUserQueryResult, found, not_found, blocked, find_row, wallet_user,
  find_wallet_user_by_wallet_id,
}
use nl_wallet.WalletProvider.Users.Lookup.{find_row-wallet_id, found_row}
use nl_wallet.WalletProvider.AccountServer.{
  Environment, WalletCertificateClaims, certificate_hsm_error, pin_pub_key_decoding, validation,
  persistence, transaction, execution, begin_lookup, find_user, commit_lookup, db_call,
}
use nl_wallet.WalletProvider.AccountServer.Certificate.{
  verify_pin_pubkey, check_user, verify_wallet_certificate,
}

-- What is known of the user that a verified certificate yields: a row of the database that is not
-- blocked, under the identifier of the certificate's verified claims, with the hardware key that they
-- name, and a PIN key that decrypts and whose encoding has their hash as its HMAC.
pub record IsOwner (env : Environment) (certificate : String) (db : Db) (user : WalletUser)
    : Type 0 where
  pub row : UserRow
  pub claims : WalletCertificateClaims
  pub pin_pubkey : Bytes
  pub claimed : env.parse_certificate certificate ≡ some claims
  pub stored : find_row user.wallet_id db.users ≡ some row
  pub read : user ≡ wallet_user row
  pub named : user.wallet_id ≡ claims.wallet_id
  pub not_blocked : row.is_blocked ≡ false
  pub decrypted : env.decrypt user.encrypted_pin_pubkey ≡ some pin_pubkey
  pub der : Bytes
  pub encoded : env.to_public_key_der pin_pubkey ≡ some der
  pub hmac_matches : env.verify_hmac der claims.pin_pubkey_hash ≡ true
  pub hw_matches : user.hw_pubkey ≡ claims.hw_pubkey

module _ (env : Environment) where
  checked :
      (claims : WalletCertificateClaims) (q : WalletUserQueryResult) (user : WalletUser)
      → check_user env claims q ≡ ok user
      → (key : Bytes) × (q ≡ found user)
        × (env.decrypt user.encrypted_pin_pubkey ≡ some key)
        × (verify_pin_pubkey env key claims.pin_pubkey_hash ≡ ok tt)
        × (user.hw_pubkey ≡ claims.hw_pubkey)
  unfolding check_user
  checked claims not_found user e = cc
  checked claims blocked user e = cc
  checked claims (found u) user e =
      let (key, d, e1) =
        >>=-ok (ok_or (env.decrypt u.encrypted_pin_pubkey) certificate_hsm_error) _ e in
      let d' = ok_or-ok (env.decrypt u.encrypted_pin_pubkey) certificate_hsm_error d in
      let keys = bytes_eq_iff u.hw_pubkey claims.hw_pubkey in
      let same : u ≡ user = ground arith in
      (key, ground (arith, same), ground (arith, same), ground arith, ground (arith, same, keys))

  pin_matches :
      (key hash : Bytes)
      → verify_pin_pubkey env key hash ≡ ok tt
      → (der : Bytes) × (env.to_public_key_der key ≡ some der) × (env.verify_hmac der hash ≡ true)
  unfolding verify_pin_pubkey
  pin_matches key hash e =
      let (der, d, e1) = >>=-ok (ok_or (env.to_public_key_der key) pin_pub_key_decoding) _ e in
      (der, ok_or-ok (env.to_public_key_der key) pin_pub_key_decoding d, guard-ok _ _ e1)

  -- A wallet certificate that verifies has an owner: a row of the database that is not blocked, under the
  -- wallet identifier of its claims and with their hardware key, whose PIN key decrypts and matches the
  -- HMAC of the claims.
  pub verify_wallet_certificate-IsOwner :
      (certificate : String) (db : Db) (user : WalletUser)
      → verify_wallet_certificate env certificate db ≡ ok user
      → IsOwner env certificate db user
  unfolding verify_wallet_certificate
  verify_wallet_certificate-IsOwner certificate db user e =
      let (claims, c, e1) = >>=-ok (ok_or (env.parse_certificate certificate) validation) _ e in
      let (_, _, e2) = >>=-ok (db_call env begin_lookup (persistence transaction)) _ e1 in
      let (_, _, e3) = >>=-ok (db_call env find_user (persistence execution)) _ e2 in
      let (_, _, e4) = >>=-ok (db_call env commit_lookup (persistence transaction)) _ e3 in
      let (key, q, d, p, h) =
        checked claims (find_wallet_user_by_wallet_id claims.wallet_id db) user e4 in
      let (row, hit, read, open_row) = found_row claims.wallet_id db user q in
      let named : user.wallet_id ≡ claims.wallet_id =
        ap (λ u. u.wallet_id) read ∙ find_row-wallet_id claims.wallet_id db.users row hit in
      let (der, encoded, hmac_matches) = pin_matches key claims.pin_pubkey_hash p in
      record {
        row = row;
        claims = claims;
        pin_pubkey = key;
        claimed = ok_or-ok (env.parse_certificate certificate) validation c;
        stored = rw named hit;
        read = read;
        named = named;
        not_blocked = open_row;
        decrypted = d;
        der = der;
        encoded = encoded;
        hmac_matches = hmac_matches;
        hw_matches = h;
      }
