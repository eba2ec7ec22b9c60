-- ===== src/Openid4vc/Issuer/Credentials.antt =====
-- What is issued in a session: the proof of possession, the choice of the attestation, the signature.
use nl_wallet.Base.{
  Bool, true, false, Option, none, some, String, str_eq, Bytes, List, [], ◌∷◌, ◌++◌, map, filter,
  replicate, Exec, ok, err, guard, ok_or, map_err, ◌>>=◌, ◌>>◌,
}
use nl_wallet.Openid4vc.Dpop.{same_string, verify_expecting_key}
use nl_wallet.Openid4vc.Issuer.{
  UnsignedMdoc, AttestationPreview, Format, mso_mdoc, CredentialRequest, WaitingForResponse,
  dpop_invalid, CredentialRequestError, issuance_error, unauthorized, use_batch_issuance,
  missing_jwk, incorrect_nonce, doctype_not_offered, unsupported_credential_format,
  unsupported_jwt_algorithm, jwt_decoding_failed, jwk_conversion, cose_key_conversion,
  missing_private_key, attestation_signing, doctype_mismatch, missing_credential_request_pop,
  Issuer,
}

abbrev openid4vci_vc_pop_jwt_type : String
openid4vci_vc_pop_jwt_type = "openid4vci-proof+jwt"

abbrev pub is_mso_mdoc : Format → Bool
is_mso_mdoc mso_mdoc = true
is_mso_mdoc _ = false

-- `zip` ends with the shorter of the two.
abbrev pub zip : {A B : Type 0} → List A → List B → List (A × B)
zip [] ys = []
zip (x ∷ xs) [] = []
zip (x ∷ xs) (y ∷ ys) = (x, y) ∷ zip xs ys

-- Each preview as often as its number of copies.
abbrev pub copies : List AttestationPreview → List UnsignedMdoc
copies [] = []
copies (p ∷ ps) = replicate p.unsigned_mdoc.copy_count p.unsigned_mdoc ++ copies ps

abbrev pub offered : String → List AttestationPreview → List UnsignedMdoc
offered doctype previews =
    filter (λ m. str_eq m.doc_type doctype) (map (λ p. p.unsigned_mdoc) previews)

-- The `match` on the number of attestations that are offered.
abbrev pub only_one :
    CredentialRequestError → List UnsignedMdoc → Exec CredentialRequestError UnsignedMdoc
only_one absent [] = err absent
only_one absent (m ∷ []) = ok m
only_one absent (m ∷ _ ∷ _) = err use_batch_issuance

-- Which attestation is requested.
unfoldable pub requested :
    Option String → List AttestationPreview → Exec CredentialRequestError UnsignedMdoc
requested (some doctype) previews =
    only_one (doctype_not_offered doctype) (offered doctype previews)
requested none previews = only_one use_batch_issuance (map (λ p. p.unsigned_mdoc) previews)

module _ (issuer : Issuer) where
  -- `CredentialRequestProof::verify`
  unfoldable pub verify_proof : String → String → Exec CredentialRequestError Bytes
  verify_proof jwt nonce = do
    header ← ok_or (issuer.jwt.decode_header jwt) jwt_decoding_failed
    jwk ← ok_or header.jwk missing_jwk
    verifying_key ← ok_or (issuer.jwt.jwk_to_p256 jwk) jwk_conversion
    token_data ←
        ok_or
          (issuer.decode_proof jwt verifying_key issuer.accepted_wallet_client_ids
            issuer.credential_issuer_identifier)
          jwt_decoding_failed
    guard (same_string token_data.header.typ (some openid4vci_vc_pop_jwt_type))
        unsupported_jwt_algorithm
    claimed ← ok_or token_data.claims.nonce incorrect_nonce
    guard (str_eq claimed nonce) incorrect_nonce
    ok verifying_key

  unfoldable pub verify_pop_and_sign_attestation :
      String → CredentialRequest → UnsignedMdoc → Exec CredentialRequestError String
  verify_pop_and_sign_attestation c_nonce request unsigned_mdoc = do
    guard (is_mso_mdoc request.format) (unsupported_credential_format request.format)
    doctype ← ok_or request.doctype doctype_mismatch
    guard (str_eq doctype unsigned_mdoc.doc_type) doctype_mismatch
    proof ← ok_or request.proof missing_credential_request_pop
    pubkey ← verify_proof proof c_nonce
    mdoc_public_key ← ok_or (issuer.cose_key pubkey) cose_key_conversion
    private_key ←
        ok_or (issuer.key_pair unsigned_mdoc.doc_type) (missing_private_key unsigned_mdoc.doc_type)
    ok_or (issuer.sign_mdoc unsigned_mdoc mdoc_public_key private_key) attestation_signing

  -- The checks of the access token and the proof of possession, for a URL and a method.
  unfoldable pub authorize :
      WaitingForResponse
      → String
      → String
      → String
      → String
      → Exec CredentialRequestError (Unit {0})
  authorize session access_token dpop url method = do
    guard (str_eq session.access_token access_token) unauthorized
    map_err (λ e. issuance_error (dpop_invalid e))
        (verify_expecting_key issuer.jwt dpop session.dpop_public_key url method (some access_token)
          (some session.dpop_nonce))

  unfoldable pub process_credential_inner :
      WaitingForResponse → CredentialRequest → String → String → Exec CredentialRequestError String
  process_credential_inner session request access_token dpop = do
    authorize session access_token dpop (issuer.join issuer.server_url "credential") "POST"
    unsigned ← requested request.doctype session.attestation_previews
    verify_pop_and_sign_attestation session.c_nonce request unsigned

  -- `try_join_all`: the first error in the order of the list stands for the first one to come.
  unfoldable pub sign_requests :
      String → List (CredentialRequest × UnsignedMdoc) → Exec CredentialRequestError (List String)
  sign_requests c_nonce [] = ok []
  sign_requests c_nonce ((request, unsigned) ∷ rest) = do
    credential ← verify_pop_and_sign_attestation c_nonce request unsigned
    others ← sign_requests c_nonce rest
    ok (credential ∷ others)

  unfoldable pub process_batch_credential_inner :
      WaitingForResponse
      → List CredentialRequest
      → String
      → String
      → Exec CredentialRequestError (List String)
  process_batch_credential_inner session requests access_token dpop = do
    authorize session access_token dpop (issuer.join issuer.server_url "batch_credential") "POST"
    sign_requests session.c_nonce (zip requests (copies session.attestation_previews))
