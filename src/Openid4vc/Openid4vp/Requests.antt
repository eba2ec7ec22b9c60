-- ===== src/Openid4vc/Openid4vp/Requests.antt =====
-- The authorization requests: `IsoVpAuthorizationRequest` and `VpAuthorizationRequest::verify`, with
-- `verify_against_trust_anchors` of jwt.rs.
use nl_wallet.Base.{
  Bool, true, false, not, ◌&&◌, Option, none, some, is_none, String, str_eq, Bytes, List, [], ◌∷◌,
  is_empty, length, Exec, ok, err, guard, ok_or, map_err, ◌>>=◌, ◌>>◌,
}
use nl_wallet.Mdoc.{ItemsRequest}
use nl_wallet.Openid4vc.Dpop.{same_string}
use nl_wallet.Openid4vc.PresentationExchange.{
  es256_format, PresentationDefinition, InputDescriptor, definition_of, items_requests_of,
}
use nl_wallet.Openid4vc.Openid4vp.{
  ResponseType, vp_token, ResponseMode, direct_post_jwt, AuthorizationRequest,
  VpPresentationDefinition, direct_definition, indirect_definition, Jwk, VpJwks, direct_keys,
  indirect_keys, ecdh_es, a128gcm, ClientMetadata, VpClientMetadata, direct_metadata,
  indirect_metadata, ClientIdScheme, x509_san_dns, VpAuthorizationRequest,
  IsoVpAuthorizationRequest, AuthRequestError, certificate_error, missing_subject, JwtX5cError,
  jwt_error, missing_certificates, certificate_base64, certificate_validation,
  certificate_public_key, AuthRequestValidationError, unexpected_field, expected_field_missing,
  unsupported_field_value, uri_variant_not_supported, unsupported_jwk, unexpected_jwk_amount,
  no_attributes_requested, missing_san, certificate_parsing, wallet_nonce_mismatch,
  unsupported_presentation_definition, unauthorized_client_id, jwt_verification, RequestLib,
}

abbrev pub direct : VpPresentationDefinition → Option PresentationDefinition
direct (direct_definition pd) = some pd
direct (indirect_definition _) = none

abbrev pub metadata_direct : VpClientMetadata → Option ClientMetadata
metadata_direct (direct_metadata c) = some c
metadata_direct (indirect_metadata _) = none

abbrev pub jwks_direct : VpJwks → Option (List Jwk)
jwks_direct (direct_keys keys) = some keys
jwks_direct (indirect_keys _) = none

-- `JwePublicKey::validate`
unfoldable pub validate_jwk : Jwk → Exec AuthRequestValidationError (Unit {0})
validate_jwk jwk = do
  guard (same_string jwk.kty (some "EC")) (unsupported_jwk "kty")
  guard (same_string jwk.crv (some "P-256")) (unsupported_jwk "crv")

-- The set of response types is `{VpToken}`.
abbrev pub is_vp_token : List ResponseType → Bool
is_vp_token (vp_token ∷ []) = true
is_vp_token _ = false

abbrev pub is_direct_post_jwt : ResponseMode → Bool
is_direct_post_jwt direct_post_jwt = true
is_direct_post_jwt _ = false

abbrev pub is_x509_san_dns : ClientIdScheme → Bool
is_x509_san_dns x509_san_dns = true
is_x509_san_dns _ = false

-- Exactly one key.
abbrev pub only_jwk : List Jwk → Exec AuthRequestValidationError Jwk
only_jwk [] = err (unexpected_jwk_amount 0)
only_jwk (jwk ∷ []) = ok jwk
only_jwk (jwk ∷ other ∷ rest) = err (unexpected_jwk_amount (length (jwk ∷ other ∷ rest)))

abbrev pub has_no_fields : List InputDescriptor → Bool
has_no_fields [] = true
has_no_fields (i ∷ is') = is_empty i.constraints.fields && has_no_fields is'

-- The metadata of a verifier with one key.
abbrev pub metadata_of : Jwk → ClientMetadata
metadata_of jwk = record {
  jwks = direct_keys (jwk ∷ []);
  vp_formats = es256_format;
  alg_values_supported = ecdh_es;
  enc_values_supported = a128gcm;
}

-- `From<IsoVpAuthorizationRequest>`
abbrev pub from_iso : IsoVpAuthorizationRequest → VpAuthorizationRequest
from_iso value = record {
  oauth_request = record {
    response_type = vp_token ∷ [];
    client_id = value.client_id;
    redirect_uri = none;
    state = none;
    authorization_details = none;
    request_uri = none;
    code_challenge = none;
    scope = none;
    nonce = some value.nonce;
    response_mode = some direct_post_jwt;
  };
  presentation_definition = direct_definition value.presentation_definition;
  client_metadata = some (direct_metadata value.client_metadata);
  client_id_scheme = some x509_san_dns;
  response_uri = some value.response_uri;
  wallet_nonce = value.wallet_nonce;
}

abbrev pub verify_absence : AuthorizationRequest → Exec AuthRequestValidationError (Unit {0})
verify_absence request = do
  guard (is_none request.authorization_details) (unexpected_field "authorization_details")
  guard (is_none request.code_challenge) (unexpected_field "code_challenge")
  guard (is_none request.redirect_uri) (unexpected_field "redirect_uri")
  guard (is_none request.scope) (unexpected_field "scope")
  guard (is_none request.request_uri) (unexpected_field "request_uri")

module _ (lib : RequestLib) where
  -- `IsoVpAuthorizationRequest::new`, with the random ID of the presentation definition.
  unfoldable pub new_request :
      List ItemsRequest
      → Bytes
      → String
      → String
      → Jwk
      → String
      → Option String
      → Exec AuthRequestError IsoVpAuthorizationRequest
  new_request items_requests rp_certificate random_id nonce encryption_pubkey response_uri
        wallet_nonce =
      do
        san ← ok_or (lib.san_dns_name rp_certificate) certificate_error
        client_id ← ok_or san missing_subject
        ok (record {
          client_id = client_id;
          nonce = nonce;
          encryption_pubkey = encryption_pubkey;
          response_uri = response_uri;
          items_requests = items_requests;
          presentation_definition = definition_of random_id items_requests;
          client_metadata = metadata_of encryption_pubkey;
          state = none;
          wallet_nonce = wallet_nonce;
        })

  -- `TryFrom<VpAuthorizationRequest>`. A field is unwrapped where its presence is checked.
  unfoldable pub try_from :
      VpAuthorizationRequest → Exec AuthRequestValidationError IsoVpAuthorizationRequest
  try_from request = do
    verify_absence request.oauth_request
    nonce ← ok_or request.oauth_request.nonce (expected_field_missing "nonce")
    response_mode ←
        ok_or request.oauth_request.response_mode (expected_field_missing "response_mode")
    client_id_scheme ← ok_or request.client_id_scheme (expected_field_missing "client_id_scheme")
    response_uri ← ok_or request.response_uri (expected_field_missing "response_uri")
    metadata ← ok_or request.client_metadata (expected_field_missing "client_metadata")
    guard (is_vp_token request.oauth_request.response_type)
        (unsupported_field_value "response_type")
    guard (is_direct_post_jwt response_mode) (unsupported_field_value "response_mode")
    guard (is_x509_san_dns client_id_scheme) (unsupported_field_value "client_id_scheme")
    definition ←
        ok_or (direct request.presentation_definition)
          (uri_variant_not_supported "presentation_definition")
    client_metadata ← ok_or (metadata_direct metadata) (uri_variant_not_supported "client_metadata")
    jwks ←
        ok_or (jwks_direct client_metadata.jwks)
          (uri_variant_not_supported "presentation_definition")
    jwk ← only_jwk jwks
    validate_jwk jwk
    guard (not (has_no_fields definition.input_descriptors)) no_attributes_requested
    items_requests ←
        map_err unsupported_presentation_definition
          (items_requests_of lib.captures definition.input_descriptors)
    ok (record {
      client_id = request.oauth_request.client_id;
      nonce = nonce;
      encryption_pubkey = jwk;
      response_uri = response_uri;
      items_requests = items_requests;
      presentation_definition = definition;
      client_metadata = client_metadata;
      state = request.oauth_request.state;
      wallet_nonce = request.wallet_nonce;
    })

  unfoldable pub decode_certificates : List String → Exec JwtX5cError (List Bytes)
  decode_certificates [] = ok []
  decode_certificates (c ∷ cs) = do
    certificate ← ok_or (lib.decode_base64 c) certificate_base64
    certificates ← decode_certificates cs
    ok (certificate ∷ certificates)

  -- `Vec::pop`: the last certificate, and those before it.
  unfoldable pub pop_leaf : List Bytes → Option (Bytes × List Bytes)
  pop_leaf [] = none
  pop_leaf (c ∷ cs) = some (after_pop c (pop_leaf cs))
    where
      after_pop : Bytes → Option (Bytes × List Bytes) → Bytes × List Bytes
      after_pop c none = (c, [])
      after_pop c (some (leaf, intermediate)) = (leaf, c ∷ intermediate)

  unfoldable pub verify_against_trust_anchors :
      String → Exec JwtX5cError (VpAuthorizationRequest × Bytes)
  verify_against_trust_anchors jws = do
    x5c ← ok_or (lib.x5c_of jws) jwt_error
    texts ← ok_or x5c missing_certificates
    certificates ← decode_certificates texts
    (leaf, intermediate) ← ok_or (pop_leaf certificates) missing_certificates
    guard (lib.verify_certificate leaf intermediate) certificate_validation
    pubkey ← ok_or (lib.public_key leaf) certificate_public_key
    request ← ok_or (lib.decode_request jws pubkey) jwt_error
    ok (request, leaf)

  -- `VpAuthorizationRequest::verify`
  unfoldable pub verify_request :
      String → Option String → Exec AuthRequestValidationError (IsoVpAuthorizationRequest × Bytes)
  verify_request jws wallet_nonce = do
    (request, rp_cert) ← map_err jwt_verification (verify_against_trust_anchors jws)
    san ← ok_or (lib.san_dns_name rp_cert) certificate_parsing
    dns_san ← ok_or san missing_san
    guard (str_eq dns_san request.oauth_request.client_id)
        (unauthorized_client_id request.oauth_request.client_id dns_san)
    guard (same_string wallet_nonce request.wallet_nonce) wallet_nonce_mismatch
    validated ← try_from request
    ok (validated, rp_cert)
