-- ===== src/Scenarios/Presentation.antt =====
-- A wallet discloses one attribute of an mdoc to a verifier, by OpenID4VP.
use mathlib.Core.List.{Memᴰ}
use mathlib.Core.List.Memᴰ.{head, tail}
use nl_wallet.Base.{
  arith, Bytes, replicate, length, subst, ◌≡◌, ◌≢◌, refl, none, some, true, false, String, str_eq,
  bytes_eq, List, [], ◌∷◌, ok, panic, if◌then◌else◌, find_key, insert_key,
}
use nl_wallet.Mdoc.Returns.{AreSized}
use nl_wallet.Mdoc.{
  CoseLabel, CoseKey, minus, integer, byte_string, IssuerSignedItem, ValidityInfo, device_signature,
  Document, DeviceResponse, ItemsRequest, DocumentDisclosedAttributes, DisclosedAttributes, Crypto,
}
use nl_wallet.Mdoc.Keys.{to_verifying_key, IsSized}
use nl_wallet.Mdoc.Verification.{
  find_digest, verify_not_expired, verify_is_valid_at, verify_attr_digest,
  verify_attrs_in_namespace, verify_namespaces, verify_issuer_signed, verify_device_auth,
  verify_document, verify_documents, verify_no_errors, verify_device_response,
}
use nl_wallet.Mdoc.Matching.{
  contains_identifier, identifiers_of_spaces, requested_identifiers, find_document, not_found,
  match_against_response,
}
use nl_wallet.Mdoc.Disclosed.{IsVerified}
use nl_wallet.Mdoc.Complete.{Discloses, match_against_response-Discloses}
use nl_wallet.Mdoc.Repeated.{verify_device_response-repeated}
use nl_wallet.Openid4vc.PresentationExchange.{fields_of, definition_of}
use nl_wallet.Openid4vc.Openid4vp.{
  Jwk, IsoVpAuthorizationRequest, VpAuthorizationResponse, RequestLib, ResponseLib,
}
use nl_wallet.Openid4vc.Openid4vp.Requests.{
  validate_jwk, metadata_of, from_iso, new_request, try_from, decode_certificates, pop_leaf,
  verify_against_trust_anchors, verify_request,
}
use nl_wallet.Openid4vc.PresentationExchange.{spaces_of_fields, items_request_of, items_requests_of}
use nl_wallet.Openid4vc.Openid4vp.Responses.{
  made_response, encrypt, new_encrypted, transcript_of, decrypt_and_verify,
}
use nl_wallet.Openid4vc.Openid4vp.Verified.{Answers}
use nl_wallet.Openid4vc.Openid4vp.Returns.{decrypt_and_verify-returns}
use nl_wallet.Openid4vc.Openid4vp.RoundTrips.{IsResponseLib, decrypt_and_verify-new_encrypted}
use nl_wallet.Openid4vc.Openid4vp.Validated.{
  try_from-from_iso, IsAccepted, verify_request-IsAccepted,
}

abbrev item : IssuerSignedItem
item = record { digest_id = 1; random = []; element_identifier = "name"; element_value = "Jan" }

abbrev validity : ValidityInfo
validity = record {
  signed = "from";
  valid_from = "from";
  valid_until = "until";
  expected_update = none;
}

abbrev pub doc : Document
doc = record {
  doc_type = "pid";
  issuer_signed = record { name_spaces = some (("space", item ∷ []) ∷ []); issuer_auth = [] };
  device_auth = device_signature [];
}

-- Without attributes.
abbrev empty_doc : Document
empty_doc = record {
  doc_type = "pid";
  issuer_signed = record { name_spaces = none; issuer_auth = [] };
  device_auth = device_signature [];
}

abbrev pub device_response : DeviceResponse
device_response = record { documents = some (doc ∷ []); document_errors = none; status = 0 }

abbrev repeated_response : DeviceResponse
repeated_response = record {
  documents = some (doc ∷ (empty_doc ∷ []));
  document_errors = none;
  status = 0;
}

abbrev pub items_request : ItemsRequest
items_request = record {
  requested_type = "pid";
  requested_spaces = ("space", ("name", false) ∷ []) ∷ [];
  request_info = none;
}

abbrev device_key : CoseKey
device_key = record {
  is_ec2 = true;
  params =
      (minus 1, integer 1)
      ∷ (minus 2, byte_string (replicate 32 6))
      ∷ (minus 3, byte_string (replicate 32 7))
      ∷ [];
}

abbrev pub crypto : Crypto
crypto = record {
  verify_issuer = λ _ _. some (record {
    value_digests = ("space", (1, 5 ∷ []) ∷ []) ∷ [];
    device_key = device_key;
    mso_doc_type = "pid";
    validity_info = validity;
  });
  common_names = λ _. some [];
  cbor_digest = λ _. some (5 ∷ []);
  parse_date = λ s. if str_eq s "from" then some 10 else some 1000;
  transcript_bytes = λ _. some [];
  device_authentication_bytes = λ _ _. some [];
  from_affine_coordinates = λ x _. some x;
  verify_signature = λ _ _ _. true;
  dh_hmac_key = λ _ _ _. none;
  verify_mac = λ _ _ _. false;
}

abbrev disclosed : DocumentDisclosedAttributes
disclosed = record {
  attributes = ("space", record { name = "name"; value = "Jan" } ∷ []) ∷ [];
  issuer = [];
  validity = validity;
}

abbrev pub attrs : DisclosedAttributes
attrs = ("pid", disclosed) ∷ []

abbrev empty_attrs : DisclosedAttributes
empty_attrs = ("pid", record { attributes = []; issuer = []; validity = validity }) ∷ []

device_response_verified :
    verify_device_response crypto device_response none "transcript" 100 ≡ ok attrs
unfolding verify_device_response verify_no_errors verify_documents verify_document
    verify_issuer_signed verify_is_valid_at verify_not_expired verify_namespaces
    verify_attrs_in_namespace verify_attr_digest find_digest verify_device_auth to_verifying_key
    bytes_eq find_key insert_key
device_response_verified = refl

device_response_matched : match_against_response (items_request ∷ []) device_response ≡ ok tt
unfolding match_against_response not_found requested_identifiers find_document contains_identifier
    identifiers_of_spaces
device_response_matched = refl

match_against_response-Discloses_example :
    (a : DocumentDisclosedAttributes) × (find_key "pid" attrs ≡ some a) × Discloses a "space" "name"
unfolding find_document
match_against_response-Discloses_example =
    match_against_response-Discloses crypto device_response none "transcript" 100 attrs (doc ∷ [])
      (items_request ∷ []) items_request "space" (("name", false) ∷ []) ("name", false)
      device_response_verified device_response_matched refl (refl, tt) (head refl) (head refl)
      (head refl)

repeated_verified :
    verify_device_response crypto repeated_response none "transcript" 100 ≡ ok empty_attrs
unfolding verify_device_response verify_no_errors verify_documents verify_document
    verify_issuer_signed verify_is_valid_at verify_not_expired verify_namespaces
    verify_attrs_in_namespace verify_attr_digest find_digest verify_device_auth to_verifying_key
    bytes_eq find_key insert_key
repeated_verified = refl

verify_device_response-repeated_example :
    ((requests : List ItemsRequest)
      → match_against_response requests repeated_response
        ≡ match_against_response requests device_response)
    × ((a : DocumentDisclosedAttributes) × (find_key "pid" empty_attrs ≡ some a)
        × IsVerified crypto none "transcript" 100 empty_doc a)
unfolding find_document
verify_device_response-repeated_example =
    verify_device_response-repeated crypto repeated_response none "transcript" 100 empty_attrs doc
      empty_doc (doc ∷ []) [] repeated_verified refl refl refl

abbrev pub jwk : Jwk
jwk = record { kty = some "EC"; crv = some "P-256"; other_parameters = "" }

abbrev pub request_lib : RequestLib
request_lib = record {
  captures = λ _. some ("space", "name");
  san_dns_name = λ _. some (some "verifier");
  x5c_of = λ _. some (some ("certificate" ∷ []));
  decode_base64 = λ _. some (1 ∷ []);
  verify_certificate = λ _ _. true;
  public_key = some;
  decode_request = λ _ _. none;
}

abbrev pub iso_request : IsoVpAuthorizationRequest
iso_request = record {
  client_id = "verifier";
  nonce = "nonce";
  encryption_pubkey = jwk;
  response_uri = "uri";
  items_requests = items_request ∷ [];
  presentation_definition = definition_of "definition" (items_request ∷ []);
  client_metadata = metadata_of jwk;
  state = none;
  wallet_nonce = some "wallet nonce";
}

request_made :
    new_request request_lib
      (items_request ∷ [])
      (1 ∷ [])
      "definition"
      "nonce"
      jwk
      "uri"
      (some "wallet nonce")
    ≡ ok iso_request
unfolding new_request
request_made = refl

try_from-from_iso_example : try_from request_lib (from_iso iso_request) ≡ ok iso_request
unfolding validate_jwk fields_of find_key
try_from-from_iso_example =
    try_from-from_iso request_lib (items_request ∷ []) (1 ∷ []) "definition" "nonce" jwk "uri"
      (some "wallet nonce") iso_request request_made refl refl
      ((refl, (λ e. cc), (refl, tt), (refl, tt), tt), refl, tt)

abbrev signing_lib : RequestLib
signing_lib = record request_lib { decode_request = λ _ _. some (from_iso iso_request) }

request_accepted : verify_request signing_lib "jws" (some "wallet nonce") ≡ ok (iso_request, 1 ∷ [])
unfolding verify_request verify_against_trust_anchors decode_certificates pop_leaf try_from
    validate_jwk fields_of find_key insert_key spaces_of_fields items_request_of items_requests_of
request_accepted = refl

verify_request-IsAccepted_example :
    IsAccepted signing_lib "jws" (some "wallet nonce") iso_request (1 ∷ [])
verify_request-IsAccepted_example =
    verify_request-IsAccepted signing_lib "jws" (some "wallet nonce") iso_request (1 ∷ [])
      request_accepted

abbrev vp_response : VpAuthorizationResponse
vp_response = made_response device_response iso_request "submission" (doc ∷ [])

-- A token is its payload; the two nonces are the only texts.
abbrev pub response_lib : ResponseLib
response_lib = record {
  to_json = λ _. some "response";
  from_json = λ _. some vp_response;
  encrypter_from_jwk = λ _. some (1 ∷ []);
  decrypter_from_jwk = some;
  encode_with_encrypter = λ payload _ _. some payload;
  decode_with_decrypter = λ token _. some (
    token,
    record {
      token_type = "JWT";
      agreement_partyuinfo = some (2 ∷ []);
      agreement_partyvinfo = some (1 ∷ []);
      content_encryption = "A128GCM";
    },
  );
  to_utf8 = λ s. if str_eq s "nonce" then 1 ∷ [] else 2 ∷ [];
  from_utf8 = λ b. if bytes_eq b (1 ∷ []) then some "nonce" else some "mdoc nonce";
  cbor_pair_sha256 = λ _ _. [];
  oid4vp_handover = λ _ _ _. "transcript";
}

response_lib-IsResponseLib :
    IsResponseLib response_lib iso_request (9 ∷ []) vp_response "mdoc nonce"
unfolding bytes_eq
response_lib-IsResponseLib = record {
  decrypter = 9 ∷ [];
  keyed = refl;
  paired = λ payload token encrypter k e. ground arith;
  json_read = λ payload e. refl;
  nonce_read = refl;
  mdoc_nonce_read = refl;
}

response_encrypted :
    new_encrypted response_lib device_response iso_request "submission" "mdoc nonce" ≡ ok "response"
unfolding new_encrypted encrypt
response_encrypted = refl

decrypt_and_verify-new_encrypted_example :
    decrypt_and_verify response_lib crypto "response" (9 ∷ []) iso_request 100 ≡ ok attrs
decrypt_and_verify-new_encrypted_example =
    decrypt_and_verify-new_encrypted response_lib crypto device_response (doc ∷ []) iso_request
      (9 ∷ []) "submission" "mdoc nonce" "response" 100 attrs response_lib-IsResponseLib refl
      response_encrypted device_response_verified device_response_matched

abbrev AnswersRequest : Type 0
AnswersRequest =
    (response : VpAuthorizationResponse) × (d : DeviceResponse) × (mdoc_nonce : String) × Answers
      response_lib "response" (9 ∷ []) iso_request response d mdoc_nonce
    × ((t : String) (a : DocumentDisclosedAttributes)
        → find_key t attrs ≡ some a
        → (docs : List Document) × (doc : Document) × (d.documents ≡ some docs)
          × Memᴰ doc docs
          × (doc.doc_type ≡ t)
          × IsVerified crypto none (transcript_of response_lib iso_request mdoc_nonce) 100 doc a)

device_params-sized :
    (l : CoseLabel) (bytes : Bytes)
    → Memᴰ (l, byte_string bytes) device_key.params
    → length bytes ≡ 32
device_params-sized l bytes (head h) = cc
device_params-sized l bytes (tail (head h)) =
    let same : bytes ≡ replicate 32 6 = ground arith in rw same refl
device_params-sized l bytes (tail (tail (head h))) =
    let same : bytes ≡ replicate 32 7 = ground arith in rw same refl
device_params-sized l bytes (tail (tail (tail m))) = elim m [ ]

crypto-AreSized : AreSized crypto
crypto-AreSized auth now mso e =
    let same : device_key ≡ mso.device_key = ground arith in subst IsSized same device_params-sized

decrypt_and_verify-returns_example :
    decrypt_and_verify response_lib crypto "token" (9 ∷ []) iso_request 100 ≢ panic
decrypt_and_verify-returns_example =
    decrypt_and_verify-returns response_lib crypto "token" (9 ∷ []) iso_request 100 crypto-AreSized
