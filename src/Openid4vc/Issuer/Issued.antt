-- ===== src/Openid4vc/Issuer/Issued.antt =====
-- What a credential rests on.
use nl_wallet.Base.{
  ◌≡◌, ap, ◌∙◌, subst, some, String, str_eq, eq_iff, Bytes, List, [], ◌∷◌, ok, guard, guard-ok,
  ok_or, ok_or-ok, >>=-ok, arith,
}
use nl_wallet.Openid4vc.Dpop.{Header, TokenData, same_string, same_string_lem}
use nl_wallet.Openid4vc.Issuer.{
  ProofPayload, missing_jwk, incorrect_nonce, jwt_decoding_failed, jwk_conversion,
  unsupported_jwt_algorithm, UnsignedMdoc, AttestationPreview, CredentialRequest,
  WaitingForResponse, CredentialRequestError, doctype_not_offered, unsupported_credential_format,
  cose_key_conversion, missing_private_key, doctype_mismatch, missing_credential_request_pop,
  Issuer,
}
use nl_wallet.Openid4vc.Issuer.Credentials.{
  is_mso_mdoc, offered, only_one, requested, authorize, verify_proof,
  verify_pop_and_sign_attestation, process_credential_inner,
}

-- The signature on one attestation, bound to the key of a proof over the nonce.
pub record IsSignedFor (issuer : Issuer) (c_nonce : String) (request : CredentialRequest)
    (unsigned : UnsignedMdoc) (credential : String) : Type 0 where
  pub proof : String
  pub pubkey : Bytes
  pub mdoc_public_key : Bytes
  pub private_key : Bytes
  pub named : request.doctype ≡ some unsigned.doc_type
  pub proven : request.proof ≡ some proof
  pub header : Header
  pub jwk : String
  pub token_data : TokenData ProofPayload
  pub headed : issuer.jwt.decode_header proof ≡ some header
  pub has_jwk : header.jwk ≡ some jwk
  pub key_of_jwk : issuer.jwt.jwk_to_p256 jwk ≡ some pubkey
  pub possessed :
      issuer.decode_proof proof pubkey issuer.accepted_wallet_client_ids
        issuer.credential_issuer_identifier
      ≡ some token_data
  pub is_proof : token_data.header.typ ≡ some "openid4vci-proof+jwt"
  pub for_nonce : token_data.claims.nonce ≡ some c_nonce
  pub converted : issuer.cose_key pubkey ≡ some mdoc_public_key
  pub key_is : issuer.key_pair unsigned.doc_type ≡ some private_key
  pub signed : issuer.sign_mdoc unsigned mdoc_public_key private_key ≡ some credential

-- A proof that was verified: a JWT of the right type, decoded with the key of its header for the issuer
-- and the wallet, with the nonce.
record IsPossessed (issuer : Issuer) (proof c_nonce : String) (pubkey : Bytes) : Type 0 where
  header : Header
  jwk : String
  token_data : TokenData ProofPayload
  headed : issuer.jwt.decode_header proof ≡ some header
  has_jwk : header.jwk ≡ some jwk
  key_of_jwk : issuer.jwt.jwk_to_p256 jwk ≡ some pubkey
  possessed :
      issuer.decode_proof proof pubkey issuer.accepted_wallet_client_ids
        issuer.credential_issuer_identifier
      ≡ some token_data
  is_proof : token_data.header.typ ≡ some "openid4vci-proof+jwt"
  for_nonce : token_data.claims.nonce ≡ some c_nonce

possessed_lem :
    (issuer : Issuer) (proof c_nonce : String) (pubkey : Bytes)
    → verify_proof issuer proof c_nonce ≡ ok pubkey
    → IsPossessed issuer proof c_nonce pubkey
unfolding verify_proof
possessed_lem issuer proof c_nonce pubkey e =
    let (header, h, e1) = >>=-ok (ok_or (issuer.jwt.decode_header proof) jwt_decoding_failed) _ e in
    let (jwk, j, e2) = >>=-ok (ok_or header.jwk missing_jwk) _ e1 in
    let (key, k, e3) = >>=-ok (ok_or (issuer.jwt.jwk_to_p256 jwk) jwk_conversion) _ e2 in
    let (data_of, d, e4) =
      >>=-ok
        (ok_or
          (issuer.decode_proof proof key issuer.accepted_wallet_client_ids
            issuer.credential_issuer_identifier)
          jwt_decoding_failed)
        _ e3 in
    let (_, t, e5) =
      >>=-ok
        (guard (same_string data_of.header.typ (some "openid4vci-proof+jwt"))
          unsupported_jwt_algorithm)
        _ e4 in
    let (claimed, c, e6) = >>=-ok (ok_or data_of.claims.nonce incorrect_nonce) _ e5 in
    let (_, n, e7) = >>=-ok (guard (str_eq claimed c_nonce) incorrect_nonce) _ e6 in
    let is_key : key ≡ pubkey = ground arith in
    record {
      header = header;
      jwk = jwk;
      token_data = data_of;
      headed = ok_or-ok (issuer.jwt.decode_header proof) _ h;
      has_jwk = ok_or-ok header.jwk _ j;
      key_of_jwk = ok_or-ok (issuer.jwt.jwk_to_p256 jwk) _ k ∙ ap some is_key;
      possessed =
          subst
            (λ k.
              issuer.decode_proof proof k issuer.accepted_wallet_client_ids
                issuer.credential_issuer_identifier
              ≡ some data_of)
            is_key
            (ok_or-ok
              (issuer.decode_proof proof key issuer.accepted_wallet_client_ids
                issuer.credential_issuer_identifier)
              _ d);
      is_proof = same_string_lem data_of.header.typ (some "openid4vci-proof+jwt") (guard-ok _ _ t);
      for_nonce =
          ok_or-ok data_of.claims.nonce _ c ∙ ap some ((eq_iff claimed c_nonce).0 (guard-ok _ _ n));
    }

signed_for :
    (issuer : Issuer) (c_nonce : String) (request : CredentialRequest) (unsigned : UnsignedMdoc)
    (credential : String)
    → verify_pop_and_sign_attestation issuer c_nonce request unsigned ≡ ok credential
    → IsSignedFor issuer c_nonce request unsigned credential
unfolding verify_pop_and_sign_attestation
signed_for issuer c_nonce request unsigned credential e =
    let (_, _, e1) =
      >>=-ok (guard (is_mso_mdoc request.format) (unsupported_credential_format request.format)) _
        e in
    let (doctype, d, e2) = >>=-ok (ok_or request.doctype doctype_mismatch) _ e1 in
    let (_, m, e3) = >>=-ok (guard (str_eq doctype unsigned.doc_type) doctype_mismatch) _ e2 in
    let (proof, p, e4) = >>=-ok (ok_or request.proof missing_credential_request_pop) _ e3 in
    let (pubkey, v, e5) = >>=-ok (verify_proof issuer proof c_nonce) _ e4 in
    let (cose, k, e6) = >>=-ok (ok_or (issuer.cose_key pubkey) cose_key_conversion) _ e5 in
    let (private_key, r, s) =
      >>=-ok (ok_or (issuer.key_pair unsigned.doc_type) (missing_private_key unsigned.doc_type)) _
        e6 in
    let possession = possessed_lem issuer proof c_nonce pubkey v in
    record {
      proof = proof;
      pubkey = pubkey;
      mdoc_public_key = cose;
      private_key = private_key;
      named =
          ok_or-ok request.doctype _ d
          ∙ ap some ((eq_iff doctype unsigned.doc_type).0 (guard-ok _ _ m));
      proven = ok_or-ok request.proof _ p;
      header = possession.header;
      jwk = possession.jwk;
      token_data = possession.token_data;
      headed = possession.headed;
      has_jwk = possession.has_jwk;
      key_of_jwk = possession.key_of_jwk;
      possessed = possession.possessed;
      is_proof = possession.is_proof;
      for_nonce = possession.for_nonce;
      converted = ok_or-ok (issuer.cose_key pubkey) _ k;
      key_is = ok_or-ok (issuer.key_pair unsigned.doc_type) _ r;
      signed = ok_or-ok (issuer.sign_mdoc unsigned cose private_key) _ s;
    }

only_one_lem :
    (absent : CredentialRequestError) (ms : List UnsignedMdoc) (m : UnsignedMdoc)
    → only_one absent ms ≡ ok m
    → ms ≡ m ∷ []
only_one_lem absent [] m e = cc
only_one_lem absent (x ∷ []) m e = let same : x ≡ m = ground arith in ap (λ y. y ∷ []) same
only_one_lem absent (x ∷ y ∷ ys) m e = cc

requested_lem :
    (doctype : String) (previews : List AttestationPreview) (m : UnsignedMdoc)
    → requested (some doctype) previews ≡ ok m
    → offered doctype previews ≡ m ∷ []
unfolding requested
requested_lem doctype previews m e =
    only_one_lem (doctype_not_offered doctype) (offered doctype previews) m e

-- If `process_credential_inner` returns a credential, then the request names a document type, even where a
-- single attestation is offered; the attestation that is signed is the only one of this type that the
-- session offers, and the signature binds it to the key of a proof: a JWT of the type for this, decoded with the key of its
-- own header for the accepted wallets and this issuer, with the session's nonce in its claims.
pub process_credential_inner-IsSignedFor :
    (issuer : Issuer) (session : WaitingForResponse) (request : CredentialRequest)
    (access_token dpop credential : String)
    → process_credential_inner issuer session request access_token dpop ≡ ok credential
    → (unsigned : UnsignedMdoc) × (offered unsigned.doc_type session.attestation_previews
        ≡ unsigned ∷ [])
      × IsSignedFor issuer session.c_nonce request unsigned credential
unfolding process_credential_inner
process_credential_inner-IsSignedFor issuer session request access_token dpop credential e =
    let (_, _, e1) =
      >>=-ok
        (authorize issuer session access_token dpop (issuer.join issuer.server_url "credential")
          "POST")
        _ e in
    let (unsigned, r, e2) = >>=-ok (requested request.doctype session.attestation_previews) _ e1 in
    let signed = signed_for issuer session.c_nonce request unsigned credential e2 in
    (
      unsigned,
      requested_lem unsigned.doc_type session.attestation_previews unsigned
          (subst (λ d. requested d session.attestation_previews ≡ ok unsigned) signed.named r),
      signed,
    )
