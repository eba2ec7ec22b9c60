-- ===== src/Openid4vc/Openid4vp/Validated.antt =====
-- Which authorization requests a wallet accepts.
use nl_wallet.Base.{
  not-true, ◌≡◌, refl, sym, ap, subst, ◌∙◌, true, false, not, Option, some, String, str_eq, eq_iff,
  Bytes, List, [], ◌∷◌, map, Exec, ok, guard, guard-ok, ok_or, ok_or-ok, map_err, map_err-ok,
  >>=-ok, arith,
}
use nl_wallet.Mdoc.{ItemsRequest}
use nl_wallet.Openid4vc.Dpop.{same_string}
use nl_wallet.Openid4vc.PresentationExchange.{
  PresentationDefinition, descriptor_of, items_requests_of,
}
use nl_wallet.Openid4vc.PresentationExchange.RoundTrip.{AreRequests, items_requests_of-definition}
use nl_wallet.Openid4vc.Openid4vp.{
  VpPresentationDefinition, direct_definition, indirect_definition, Jwk, VpJwks, direct_keys,
  indirect_keys, VpAuthorizationRequest, IsoVpAuthorizationRequest, AuthRequestError,
  certificate_error, missing_subject, jwt_error, missing_certificates, certificate_validation,
  certificate_public_key, AuthRequestValidationError, expected_field_missing,
  unsupported_field_value, uri_variant_not_supported, no_attributes_requested, missing_san,
  certificate_parsing, wallet_nonce_mismatch, unsupported_presentation_definition,
  unauthorized_client_id, jwt_verification, RequestLib,
}
use nl_wallet.Openid4vc.Openid4vp.Requests.{
  direct, metadata_direct, jwks_direct, validate_jwk, is_vp_token, is_direct_post_jwt,
  is_x509_san_dns, only_jwk, has_no_fields, from_iso, verify_absence, new_request, try_from,
  decode_certificates, pop_leaf, verify_against_trust_anchors, verify_request,
}
use nl_wallet.Openid4vc.Openid4vp.Verified.{same_string-eq}

-- An authorization request that is made for a valid key, of requests without request info that have attributes
-- with readable and distinct names, is converted back to itself from the form in which it is sent.
pub try_from-from_iso :
    (lib : RequestLib) (requests : List ItemsRequest) (certificate : Bytes)
    (random_id nonce : String) (jwk : Jwk) (response_uri : String) (wallet_nonce : Option String)
    (request : IsoVpAuthorizationRequest)
    → new_request lib requests certificate random_id nonce jwk response_uri wallet_nonce
      ≡ ok request
    → validate_jwk jwk ≡ ok tt
    → has_no_fields (map descriptor_of requests) ≡ false
    → AreRequests lib.captures requests
    → try_from lib (from_iso request) ≡ ok request
unfolding new_request try_from
try_from-from_iso lib requests certificate random_id nonce jwk response_uri wallet_nonce request e v
      f r =
    let (san, s, e1) = >>=-ok (ok_or (lib.san_dns_name certificate) certificate_error) _ e in
    let (client_id, c, e2) = >>=-ok (ok_or san missing_subject) _ e1 in
    subst (λ x. try_from lib (from_iso x) ≡ ok x) (is_made e2)
      (rw (v, f, items_requests_of-definition lib.captures requests r) refl)
  where
    is_made :
        {a b : IsoVpAuthorizationRequest}
        → ◌≡◌ {A = Exec AuthRequestError IsoVpAuthorizationRequest} (ok a) (ok b)
        → a ≡ b
    is_made h = cc

-- What an accepted request rests on.
pub record IsAccepted (lib : RequestLib) (jws : String) (wallet_nonce : Option String)
    (request : IsoVpAuthorizationRequest) (certificate : Bytes) : Type 0 where
  pub intermediate : List Bytes
  pub pubkey : Bytes
  pub sent : VpAuthorizationRequest
  pub trusted : lib.verify_certificate certificate intermediate ≡ true
  pub keyed : lib.public_key certificate ≡ some pubkey
  pub signed : lib.decode_request jws pubkey ≡ some sent
  pub named : lib.san_dns_name certificate ≡ some (some request.client_id)
  pub for_wallet : request.wallet_nonce ≡ wallet_nonce
  pub nonce_sent : sent.oauth_request.nonce ≡ some request.nonce
  pub uri_sent : sent.response_uri ≡ some request.response_uri
  pub definition_sent :
      sent.presentation_definition ≡ direct_definition request.presentation_definition
  pub key_sent : request.client_metadata.jwks ≡ direct_keys (request.encryption_pubkey ∷ [])
  pub key_valid : validate_jwk request.encryption_pubkey ≡ ok tt
  pub attributes_requested : has_no_fields request.presentation_definition.input_descriptors ≡ false
  pub converted :
      items_requests_of lib.captures request.presentation_definition.input_descriptors
      ≡ ok request.items_requests

only_jwk_lem : (keys : List Jwk) (jwk : Jwk) → only_jwk keys ≡ ok jwk → keys ≡ jwk ∷ []
only_jwk_lem [] jwk e = cc
only_jwk_lem (k ∷ []) jwk e = cc
only_jwk_lem (k ∷ l ∷ rest) jwk e = cc

direct_lem :
    (d : VpPresentationDefinition) (pd : PresentationDefinition)
    → direct d ≡ some pd
    → d ≡ direct_definition pd
direct_lem (direct_definition x) pd e = cc
direct_lem (indirect_definition x) pd e = cc

jwks_direct_lem : (j : VpJwks) (keys : List Jwk) → jwks_direct j ≡ some keys → j ≡ direct_keys keys
jwks_direct_lem (direct_keys x) keys e = cc
jwks_direct_lem (indirect_keys x) keys e = cc

-- What a request that is converted has of the one that was sent.
record IsConverted (lib : RequestLib) (sent : VpAuthorizationRequest)
    (request : IsoVpAuthorizationRequest) : Type 0 where
  client_kept : request.client_id ≡ sent.oauth_request.client_id
  wallet_kept : request.wallet_nonce ≡ sent.wallet_nonce
  nonce_kept : sent.oauth_request.nonce ≡ some request.nonce
  uri_kept : sent.response_uri ≡ some request.response_uri
  definition_kept : sent.presentation_definition ≡ direct_definition request.presentation_definition
  only_key : request.client_metadata.jwks ≡ direct_keys (request.encryption_pubkey ∷ [])
  valid_key : validate_jwk request.encryption_pubkey ≡ ok tt
  has_fields : has_no_fields request.presentation_definition.input_descriptors ≡ false
  items :
      items_requests_of lib.captures request.presentation_definition.input_descriptors
      ≡ ok request.items_requests

try_from-IsConverted :
    (lib : RequestLib) (sent : VpAuthorizationRequest) (request : IsoVpAuthorizationRequest)
    → try_from lib sent ≡ ok request
    → IsConverted lib sent request
unfolding try_from
try_from-IsConverted lib sent request e =
    let (_, _, e1) = >>=-ok (verify_absence sent.oauth_request) _ e in
    let (nonce, n, e2) =
      >>=-ok (ok_or sent.oauth_request.nonce (expected_field_missing "nonce")) _ e1 in
    let (mode, _, e3) =
      >>=-ok (ok_or sent.oauth_request.response_mode (expected_field_missing "response_mode")) _
        e2 in
    let (scheme, _, e4) =
      >>=-ok (ok_or sent.client_id_scheme (expected_field_missing "client_id_scheme")) _ e3 in
    let (uri, u, e5) =
      >>=-ok (ok_or sent.response_uri (expected_field_missing "response_uri")) _ e4 in
    let (metadata, _, e6) =
      >>=-ok (ok_or sent.client_metadata (expected_field_missing "client_metadata")) _ e5 in
    let (_, _, e7) =
      >>=-ok
        (guard (is_vp_token sent.oauth_request.response_type)
          (unsupported_field_value "response_type"))
        _ e6 in
    let (_, _, e8) =
      >>=-ok (guard (is_direct_post_jwt mode) (unsupported_field_value "response_mode")) _ e7 in
    let (_, _, e9) =
      >>=-ok (guard (is_x509_san_dns scheme) (unsupported_field_value "client_id_scheme")) _ e8 in
    let (pd, d, e10) =
      >>=-ok
        (ok_or (direct sent.presentation_definition)
          (uri_variant_not_supported "presentation_definition"))
        _ e9 in
    let (client, _, e11) =
      >>=-ok (ok_or (metadata_direct metadata) (uri_variant_not_supported "client_metadata")) _
        e10 in
    let (keys, k, e12) =
      >>=-ok (ok_or (jwks_direct client.jwks) (uri_variant_not_supported "presentation_definition"))
        _ e11 in
    let (jwk, j, e13) = >>=-ok (only_jwk keys) _ e12 in
    let (_, v, e14) = >>=-ok (validate_jwk jwk) _ e13 in
    let (_, f, e15) =
      >>=-ok (guard (not (has_no_fields pd.input_descriptors)) no_attributes_requested) _ e14 in
    let (requests, r, e16) =
      >>=-ok
        (map_err unsupported_presentation_definition
          (items_requests_of lib.captures pd.input_descriptors))
        _ e15 in
    subst (IsConverted lib sent) (same e16) (record {
      client_kept = refl;
      wallet_kept = refl;
      nonce_kept = ok_or-ok sent.oauth_request.nonce (expected_field_missing "nonce") n;
      uri_kept = ok_or-ok sent.response_uri (expected_field_missing "response_uri") u;
      definition_kept =
          direct_lem sent.presentation_definition pd
            (ok_or-ok (direct sent.presentation_definition) _ d);
      only_key =
          jwks_direct_lem client.jwks keys (ok_or-ok (jwks_direct client.jwks) _ k)
          ∙ ap direct_keys (only_jwk_lem keys jwk j);
      valid_key = v;
      has_fields = not-true (has_no_fields pd.input_descriptors) (guard-ok _ _ f);
      items =
          map_err-ok unsupported_presentation_definition
            (items_requests_of lib.captures pd.input_descriptors) r;
    })
  where
    same :
        {a b : IsoVpAuthorizationRequest}
        → ◌≡◌ {A = Exec AuthRequestValidationError IsoVpAuthorizationRequest} (ok a) (ok b)
        → a ≡ b
    same h = cc

signed_lem :
    (lib : RequestLib) (jws : String) (sent : VpAuthorizationRequest) (certificate : Bytes)
    → verify_against_trust_anchors lib jws ≡ ok (sent, certificate)
    → (intermediate : List Bytes) × (pubkey : Bytes) × (lib.verify_certificate certificate
          intermediate
        ≡ true)
      × (lib.public_key certificate ≡ some pubkey)
      × (lib.decode_request jws pubkey ≡ some sent)
unfolding verify_against_trust_anchors
signed_lem lib jws sent certificate e =
    let (x5c, _, e1) = >>=-ok (ok_or (lib.x5c_of jws) jwt_error) _ e in
    let (texts, _, e2) = >>=-ok (ok_or x5c missing_certificates) _ e1 in
    let (certificates, _, e3) = >>=-ok (decode_certificates lib texts) _ e2 in
    let ((leaf, intermediate), _, e4) =
      >>=-ok (ok_or (pop_leaf lib certificates) missing_certificates) _ e3 in
    let (_, g, e5) =
      >>=-ok (guard (lib.verify_certificate leaf intermediate) certificate_validation) _ e4 in
    let (pubkey, k, e6) = >>=-ok (ok_or (lib.public_key leaf) certificate_public_key) _ e5 in
    let (decoded, d, e7) = >>=-ok (ok_or (lib.decode_request jws pubkey) jwt_error) _ e6 in
    let is_leaf : leaf ≡ certificate = ground arith in
    let is_sent : decoded ≡ sent = ground arith in
    (
      intermediate,
      pubkey,
      subst (λ c. lib.verify_certificate c intermediate ≡ true) is_leaf (guard-ok _ _ g),
      subst (λ c. lib.public_key c ≡ some pubkey) is_leaf
          (ok_or-ok (lib.public_key leaf) certificate_public_key k),
      ok_or-ok (lib.decode_request jws pubkey) jwt_error d ∙ ap some is_sent,
    )

accepted_lem :
    (lib : RequestLib) (jws : String) (wallet_nonce : Option String) (sent : VpAuthorizationRequest)
    (request : IsoVpAuthorizationRequest) (certificate : Bytes) (dns_san : String)
    → verify_against_trust_anchors lib jws ≡ ok (sent, certificate)
    → lib.san_dns_name certificate ≡ some (some dns_san)
    → str_eq dns_san sent.oauth_request.client_id ≡ true
    → same_string wallet_nonce sent.wallet_nonce ≡ true
    → try_from lib sent ≡ ok request
    → IsAccepted lib jws wallet_nonce request certificate
accepted_lem lib jws wallet_nonce sent request certificate dns_san s a g w t =
    let (intermediate, pubkey, trusted, keyed, decoded) = signed_lem lib jws sent certificate s in
    let kept = try_from-IsConverted lib sent request t in
    let named = (eq_iff dns_san sent.oauth_request.client_id).0 g ∙ sym kept.client_kept in
    record {
      intermediate = intermediate;
      pubkey = pubkey;
      sent = sent;
      trusted = trusted;
      keyed = keyed;
      signed = decoded;
      named = a ∙ ap (λ x. some (some x)) named;
      for_wallet = kept.wallet_kept ∙ sym (same_string-eq wallet_nonce sent.wallet_nonce w);
      nonce_sent = kept.nonce_kept;
      uri_sent = kept.uri_kept;
      definition_sent = kept.definition_kept;
      key_sent = kept.only_key;
      key_valid = kept.valid_key;
      attributes_requested = kept.has_fields;
      converted = kept.items;
    }

-- A request that the wallet accepts was signed with the key of a trusted certificate, whose DNS name is
-- the client of the request, and carries the wallet's nonce. It requests at least one attribute, as its
-- presentation definition says, and asks for the answer to be encrypted with the one valid key in it.
pub verify_request-IsAccepted :
    (lib : RequestLib) (jws : String) (wallet_nonce : Option String)
    (request : IsoVpAuthorizationRequest) (certificate : Bytes)
    → verify_request lib jws wallet_nonce ≡ ok (request, certificate)
    → IsAccepted lib jws wallet_nonce request certificate
unfolding verify_request
verify_request-IsAccepted lib jws wallet_nonce request certificate e =
    let ((sent, cert), s, e1) =
      >>=-ok (map_err jwt_verification (verify_against_trust_anchors lib jws)) _ e in
    let (san, a, e2) = >>=-ok (ok_or (lib.san_dns_name cert) certificate_parsing) _ e1 in
    let (dns_san, d, e3) = >>=-ok (ok_or san missing_san) _ e2 in
    let (_, g, e4) =
      >>=-ok
        (guard (str_eq dns_san sent.oauth_request.client_id)
          (unauthorized_client_id sent.oauth_request.client_id dns_san))
        _ e3 in
    let (_, w, e5) =
      >>=-ok (guard (same_string wallet_nonce sent.wallet_nonce) wallet_nonce_mismatch) _ e4 in
    let (validated, t, e6) = >>=-ok (try_from lib sent) _ e5 in
    let same = pair_ok e6 in
    accepted_lem lib jws wallet_nonce sent request certificate dns_san
      (map_err-ok jwt_verification (verify_against_trust_anchors lib jws) s
        ∙ ap (λ c. ok (sent, c)) same.1)
      (subst (λ c. lib.san_dns_name c ≡ some (some dns_san)) same.1
        (ok_or-ok (lib.san_dns_name cert) certificate_parsing a
          ∙ ap some (ok_or-ok san missing_san d)))
      (guard-ok (str_eq dns_san sent.oauth_request.client_id) _ g)
      (guard-ok (same_string wallet_nonce sent.wallet_nonce) _ w) (t ∙ ap ok same.0)
  where
    pair_ok :
        {a b : IsoVpAuthorizationRequest} {c d : Bytes}
        → ◌≡◌ {A = Exec AuthRequestValidationError (IsoVpAuthorizationRequest × Bytes)}
            (ok (a, c))
            (ok (b, d))
        → (a ≡ b) × (c ≡ d)
    pair_ok h = (cc, cc)
