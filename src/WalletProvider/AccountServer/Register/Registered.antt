-- ===== src/WalletProvider/AccountServer/Register/Registered.antt =====
-- What a registration rests on, and what it leaves.
use nl_wallet.Base.{
  ◌≡◌, ◌≢◌, ◌⊎◌, refl, sym, ap, subst, ◌∙◌, inl, inr, some, none, false, String, Bytes, List, ◌∷◌,
  Exec, ok, err, panic, ok_or, ok_or-ok, map_err, map_err-ok, >>=-ok, arith,
}
use nl_wallet.WalletCommon.Signed.{equal_to, dangerous_parse_unverified, parse_and_verify}
use nl_wallet.WalletCommon.Signed.Verified.{IsSigned, IsCoherent, parse_and_verify-IsSigned}
use nl_wallet.WalletProvider.Users.{
  Db, UserRow, Encrypted, WalletUserCreate, create_wallet_user, new_row, find_row,
}
use nl_wallet.WalletProvider.Users.Lookup.{conflicts-find_row}
use nl_wallet.WalletProvider.AccountServer.{
  Environment, Registration, RegistrationError, pin_pub_key_decoding, certificate_hsm_error,
  registration_certificate, jwt_signing, message_parsing, message_validation,
  registration_hsm_error, certificate_storage, transaction, execution, Decision, reject, proceed,
  settle, db_call, begin, create_user, commit,
}
use nl_wallet.WalletProvider.AccountServer.Certificate.{sign_pin_pubkey}
use nl_wallet.WalletProvider.AccountServer.Register.{
  RegistrationRequest, verify_registration_challenge, new_wallet_certificate, verify_registration,
  create_user_transaction, registration_transaction, register,
}

abbrev pub creation : RegistrationRequest → String → Registration → Encrypted → WalletUserCreate
creation q wallet_id keys encrypted = record {
  id = q.uuid;
  wallet_id = wallet_id;
  hw_pubkey = keys.hw_pubkey;
  encrypted_pin_pubkey = encrypted;
}

pub record IsRegistered (env : Environment) (q : RegistrationRequest)
    (r : Exec RegistrationError String) (before after : List UserRow) : Type 0 where
  pub wallet_id : String
  pub keys : Registration
  pub encrypted : Encrypted
  pub challenge : Bytes
  pub challenged : verify_registration_challenge env challenge ≡ ok wallet_id
  pub signed :
      IsSigned env.registration_codec q.message challenge
        (equal_to 0)
        keys.hw_pubkey
        keys.pin_pubkey
  pub pin_encrypted : env.encrypt keys.pin_pubkey ≡ some encrypted
  pub fresh : find_row wallet_id before ≡ none
  pub created : after ≡ (
      record {
        id = q.uuid;
        wallet_id = wallet_id;
        hw_pubkey = keys.hw_pubkey;
        encrypted_pin_pubkey = encrypted;
        instruction_sequence_number = 0;
        pin_entries = 0;
        last_unsuccessful_pin = none;
        is_blocked = false;
        challenge = none;
      }
      ∷ before)
  pub der : Bytes
  pub pin_pubkey_hash : Bytes
  pub certificate : String
  pub encoded : env.to_public_key_der keys.pin_pubkey ≡ some der
  pub hashed : env.sign_hmac der ≡ some pin_pubkey_hash
  pub certified :
      env.sign_certificate (record {
        wallet_id = wallet_id;
        hw_pubkey = keys.hw_pubkey;
        pin_pubkey_hash = pin_pubkey_hash;
        version = 0;
      })
      ≡ some certificate
  pub answer : r ≡ ok certificate

verified :
    (env : Environment) (message : String) (wallet_id : String) (keys : Registration)
    → IsCoherent env.registration_codec
    → verify_registration env message ≡ ok (wallet_id, keys)
    → (challenge : Bytes) × (verify_registration_challenge env challenge ≡ ok wallet_id)
      × IsSigned env.registration_codec message challenge
          (equal_to 0)
          keys.hw_pubkey
          keys.pin_pubkey
unfolding verify_registration
verified env message wallet_id keys coherent e =
    let (u, _, e1) =
      >>=-ok (map_err message_parsing (dangerous_parse_unverified env.registration_codec message)) _
        e in
    let (w, challenged, e2) = >>=-ok (verify_registration_challenge env u.challenge) _ e1 in
    let (c, v, e3) =
      >>=-ok
        (map_err message_validation (
          parse_and_verify env.registration_codec message u.challenge (equal_to 0)
            u.payload.hw_pubkey u.payload.pin_pubkey))
        _ e2 in
    let signed =
      parse_and_verify-IsSigned env.registration_codec message u.challenge (equal_to 0)
        u.payload.hw_pubkey u.payload.pin_pubkey c coherent (map_err-ok message_validation _ v) in
    let same_id : w ≡ wallet_id = ground arith in
    let same_keys : u.payload ≡ keys = ground arith in
    (
      u.challenge,
      challenged ∙ ap ok same_id,
      subst
          (λ k.
            IsSigned env.registration_codec message u.challenge (equal_to 0) k.hw_pubkey
              k.pin_pubkey)
          same_keys signed.0,
    )

module _ (env : Environment) (q : RegistrationRequest) (db : Db)
    (coherent : IsCoherent env.registration_codec) where
  inserted :
      (c : WalletUserCreate) (db' : Db)
      → create_wallet_user c db ≡ some db'
      → (find_row c.wallet_id db.users ≡ none) × (db'.users ≡ new_row c ∷ db.users)
  unfolding create_wallet_user
  inserted c db' e = (ground (arith, conflicts-find_row c db.users), ground arith)

  -- What is signed in the certificate.
  certificate_lem :
      (wallet_id : String) (hw_pubkey pin_pubkey : Bytes) (certificate : String)
      → new_wallet_certificate env wallet_id hw_pubkey pin_pubkey ≡ ok certificate
      → (der : Bytes) × (hash : Bytes) × (env.to_public_key_der pin_pubkey ≡ some der)
        × (env.sign_hmac der ≡ some hash)
        × (env.sign_certificate (record {
          wallet_id = wallet_id;
          hw_pubkey = hw_pubkey;
          pin_pubkey_hash = hash;
          version = 0;
        })
            ≡ some certificate)
  unfolding new_wallet_certificate sign_pin_pubkey
  certificate_lem wallet_id hw_pubkey pin_pubkey certificate e =
      let (hash, h, e1) =
        >>=-ok (map_err registration_certificate (sign_pin_pubkey env pin_pubkey)) _ e in
      let (der, d, h1) =
        >>=-ok (ok_or (env.to_public_key_der pin_pubkey) pin_pub_key_decoding) _
          (map_err-ok registration_certificate (sign_pin_pubkey env pin_pubkey) h) in
      (
        der,
        hash,
        ok_or-ok (env.to_public_key_der pin_pubkey) pin_pub_key_decoding d,
        ok_or-ok (env.sign_hmac der) certificate_hsm_error h1,
        ok_or-ok (env.sign_certificate _) jwt_signing e1,
      )

  stored :
      (wallet_id : String) (keys : Registration) (a : Decision RegistrationError String) (db' : Db)
      → verify_registration env q.message ≡ ok (wallet_id, keys)
      → create_user_transaction env q.uuid wallet_id keys db ≡ ok (a, db')
      → (c : String) × (a ≡ proceed c) × IsRegistered env q (ok c) db.users db'.users
  unfolding create_user_transaction
  stored wallet_id keys a db' v e =
      let (encrypted, p, e2) =
        >>=-ok (ok_or (env.encrypt keys.pin_pubkey) registration_hsm_error) _ e in
      let (_, _, e3) = >>=-ok (db_call env begin (certificate_storage transaction)) _ e2 in
      let (_, _, e4) = >>=-ok (db_call env create_user (certificate_storage execution)) _ e3 in
      let (db1, c, e5) =
        >>=-ok
          (ok_or (create_wallet_user (creation q wallet_id keys encrypted) db)
            (certificate_storage execution))
          _ e4 in
      let (cert, w, e6) =
        >>=-ok (new_wallet_certificate env wallet_id keys.hw_pubkey keys.pin_pubkey) _ e5 in
      let (_, _, e7) = >>=-ok (db_call env commit (certificate_storage transaction)) _ e6 in
      let (fresh, created) =
        inserted (creation q wallet_id keys encrypted) db1
          (ok_or-ok (create_wallet_user (creation q wallet_id keys encrypted) db) _ c) in
      let same_decision : proceed cert ≡ a = ground arith in
      let same_db : db1 ≡ db' = ground arith in
      let (challenge, challenged, signed) = verified env q.message wallet_id keys coherent v in
      let (der, hash, encoded, hashed, certified) =
        certificate_lem wallet_id keys.hw_pubkey keys.pin_pubkey cert w in
      (
        cert,
        sym same_decision,
        record {
          wallet_id = wallet_id;
          keys = keys;
          encrypted = encrypted;
          challenge = challenge;
          challenged = challenged;
          signed = signed;
          pin_encrypted = ok_or-ok (env.encrypt keys.pin_pubkey) _ p;
          fresh = fresh;
          created = sym (ap (λ s. s.users) same_db) ∙ created;
          der = der;
          pin_pubkey_hash = hash;
          certificate = cert;
          encoded = encoded;
          hashed = hashed;
          certified = certified;
          answer = refl;
        },
      )

  transacted :
      (a : Decision RegistrationError String) (db' : Db)
      → registration_transaction env q db ≡ ok (a, db')
      → (c : String) × (a ≡ proceed c) × IsRegistered env q (ok c) db.users db'.users
  unfolding registration_transaction
  transacted a db' e =
      let ((wallet_id, keys), v, e1) = >>=-ok (verify_registration env q.message) _ e in
      stored wallet_id keys a db' v e1

  settled :
      (t : Exec RegistrationError (Decision RegistrationError String × Db))
      → registration_transaction env q db ≡ t
      → let h = settle db t (λ certificate db'. (ok certificate, db')) in
        (((c : String) → h.0 ≢ ok c) × (h.1 ≡ db)) ⊎ IsRegistered env q h.0 db.users h.1.users
  settled (err x) e = inl (λ b h. cc, refl)
  settled panic e = inl (λ b h. cc, refl)
  settled (ok (reject x, db')) e =
      let (_, same, _) = transacted (reject x) db' e in absurd (ground (arith, same))
  settled (ok (proceed c, db')) e =
      let (c', same, registered) = transacted (proceed c) db' e in
      let is_answer : c' ≡ c = ground (arith, same) in
      inr (subst (λ x. IsRegistered env q (ok x) db.users db'.users) is_answer registered)

pub register-IsRegistered :
    (env : Environment) (q : RegistrationRequest) (db : Db)
    → IsCoherent env.registration_codec
    → let h = register env q db in
      (((c : String) → h.0 ≢ ok c) × (h.1 ≡ db)) ⊎ IsRegistered env q h.0 db.users h.1.users
unfolding register
register-IsRegistered env q db coherent =
    settled env q db coherent (registration_transaction env q db) refl
