-- ===== src/Scenarios/Verifying.antt =====
-- The verifier, with a session that is created and one that waits for a response.
use nl_wallet.Base.{
  String, Option, ◌+◌, ◌≤◌, ◌<◌, ◌≡◌, ◌⊎◌, inl, refl, none, some, Option, List, [], ◌∷◌, ok, err,
  find_key,
}
use nl_wallet.SessionStore.{SessionState}
use nl_wallet.SessionStore.Memory.{get_session, write, insert_entry}
use nl_wallet.SessionStore.Interface.{memory, memory-IsStore}
use nl_wallet.Mdoc.{DisclosedAttributes}
use nl_wallet.Openid4vc.Openid4vp.Requests.{validate_jwk, new_request}
use nl_wallet.Openid4vc.Openid4vp.Responses.{decrypt_and_verify}
use nl_wallet.Openid4vc.Verifier.{
  RedirectUri, Created, WaitingForResponse, DisclosureData, created, waiting_for_response,
  unexpected_state, expired_ephemeral_id, post_session_error, access_denied, authorization_error,
  wallet_response, wallet_error, same_device, cross_device, both, UseCase, VerifierUrlParameters,
  Verifier, Fresh,
}
use nl_wallet.Openid4vc.Verifier.Steps.{
  without_uri, ephemeral_id_validity, generate_ephemeral_id, verify_ephemeral_id,
  redirect_uri_and_nonce, process_get_request_inner,
}
use nl_wallet.Openid4vc.Verifier.Endpoints.{
  new_session, get_session_state, get_created, get_waiting, checked_request, process_get_request,
  process_authorization_response, disclosed_attributes,
}
use nl_wallet.Openid4vc.Verifier.Answered.{waiting_state, process_authorization_response-once}
use nl_wallet.Openid4vc.Verifier.Released.{
  IsReleased, disclosed_attributes-process_authorization_response,
}
use nl_wallet.Openid4vc.Verifier.Started.{
  IsFitting, verify_ephemeral_id-generate, redirect_uri_and_nonce-new_session,
}
use nl_wallet.Openid4vc.Verifier.Requested.{
  created_state, IsRequested, process_get_request-IsRequested,
}
use nl_wallet.Mdoc.Keys.{to_verifying_key}
use nl_wallet.Mdoc.Verification.{
  find_digest, verify_not_expired, verify_is_valid_at, verify_attr_digest,
  verify_attrs_in_namespace, verify_namespaces, verify_issuer_signed, verify_device_auth,
  verify_document, verify_documents, verify_no_errors, verify_device_response,
}
use nl_wallet.Mdoc.Matching.{
  contains_identifier, identifiers_of_spaces, requested_identifiers, find_document, not_found,
  match_against_response,
}
use nl_wallet.Openid4vc.PresentationExchange.{verify_descriptors, verify_submission}
use nl_wallet.Openid4vc.Openid4vp.Responses.{decrypt, verify_response}
use nl_wallet.Base.{bytes_eq, insert_key}
use nl_wallet.Scenarios.Presentation.{
  items_request, crypto, jwk, request_lib, iso_request, response_lib,
}

abbrev usecase : UseCase
usecase = record {
  certificate = 1 ∷ [];
  private_key = 2 ∷ [];
  usecase_client_id = "verifier";
  session_type_return_url = both;
}

abbrev url_parameters : VerifierUrlParameters
url_parameters = record { session_type = cross_device; ephemeral_id = 7 ∷ []; time = 1000 }

abbrev verifier : Verifier
verifier = record {
  use_cases = ("login", usecase) ∷ [];
  requests = request_lib;
  responses = response_lib;
  crypto = crypto;
  hmac_sign = λ _. 7 ∷ [];
  hmac_verify = λ _ id. bytes_eq id (7 ∷ []);
  to_rfc3339 = λ _. "time";
  bytes_of = λ _. [];
  sign_with_certificate = λ _ _. some "jws";
  parse_query = λ _. some url_parameters;
  encode_parameters = λ _. some "query";
  encode_request_uri = λ _. some "query";
  set_query = λ url _. url;
  strfmt = λ template _. some template;
  parse_url = some;
  append_nonce = λ url _. url;
  describe_get = λ _. "error";
  describe_response = λ _. "error";
  describe_user = λ _. "error";
}

abbrev fresh : Fresh
fresh = record {
  now = 2000;
  session_token = "session";
  request_nonce = "nonce";
  redirect_nonce = "redirect nonce";
  definition_id = "definition";
  key_pair = some (9 ∷ [], jwk);
}

abbrev redirect : RedirectUri
redirect = record { uri = "template"; nonce = "redirect nonce" }

abbrev new_state : SessionState DisclosureData
new_state = record {
  data_of = created (record {
    items_requests = items_request ∷ [];
    usecase_id = "login";
    client_id = "verifier";
    redirect_uri_template = some "template";
  });
  token = "session";
  last_active = 1000;
}

abbrev waiting : WaitingForResponse
waiting = record {
  auth_request = iso_request;
  encryption_key = 9 ∷ [];
  redirect_uri = some redirect;
}

abbrev waiting_session : SessionState DisclosureData
waiting_session = record {
  data_of = waiting_for_response waiting;
  token = "session";
  last_active = 50;
}

abbrev sessions : List (SessionState DisclosureData)
sessions = waiting_session ∷ []

accepted :
    (process_authorization_response verifier
      (memory {T = DisclosureData})
      100
      "session"
      (wallet_response "response")
      sessions).0
    ≡ ok (some "template")
unfolding process_authorization_response get_waiting get_session_state get_session write
    insert_entry decrypt_and_verify decrypt verify_response verify_submission verify_descriptors
    verify_device_response verify_no_errors verify_documents verify_document verify_issuer_signed
    verify_is_valid_at verify_not_expired verify_namespaces verify_attrs_in_namespace
    verify_attr_digest find_digest verify_device_auth to_verifying_key bytes_eq find_key insert_key
    match_against_response not_found requested_identifiers find_document contains_identifier
    identifiers_of_spaces
accepted = refl

process_authorization_response-once_example :
    process_authorization_response verifier
      (memory {T = DisclosureData})
      200
      "session"
      (wallet_error (record {
        error_code = authorization_error access_denied;
        error_description = none;
        error_uri = none;
      }))
      (process_authorization_response verifier
        (memory {T = DisclosureData})
        100
        "session"
        (wallet_response "response")
        sessions).1
    ≡ (
      err (without_uri (post_session_error unexpected_state)),
      (process_authorization_response verifier
          (memory {T = DisclosureData})
          100
          "session"
          (wallet_response "response")
          sessions).1,
    )
process_authorization_response-once_example =
    process_authorization_response-once verifier (memory {T = DisclosureData}) 100 200 "session"
      (wallet_response "response")
      (wallet_error (record {
        error_code = authorization_error access_denied;
        error_description = none;
        error_uri = none;
      }))
      sessions memory-IsStore (inl (some "template", accepted))

disclosed_attributes-process_authorization_response_example :
    (session : SessionState WaitingForResponse) × (found : DisclosedAttributes) × ((memory
          {T = DisclosureData}).get
        "session" sessions
      ≡ ok (some (waiting_state session)))
    × (decrypt_and_verify response_lib crypto "response" session.data_of.encryption_key
          session.data_of.auth_request 100
        ≡ ok found)
    × IsReleased session.data_of.redirect_uri (some "redirect nonce") found (
        disclosed_attributes verifier
          (memory {T = DisclosureData})
          "session"
          (some "redirect nonce")
          (process_authorization_response verifier
            (memory {T = DisclosureData})
            100
            "session"
            (wallet_response "response")
            sessions).1)
disclosed_attributes-process_authorization_response_example =
    disclosed_attributes-process_authorization_response verifier (memory {T = DisclosureData}) 100
      "session" "response" (some "redirect nonce") sessions (some "template") memory-IsStore
      accepted

verify_ephemeral_id-generate_example :
    ((11001 ≤ 1000 + ephemeral_id_validity)
      × (verify_ephemeral_id verifier 11001 "session" (record {
        session_type = cross_device;
        ephemeral_id = generate_ephemeral_id verifier "session" 1000;
        time = 1000;
      })
          ≡ ok tt))
    ⊎ ((1000 + ephemeral_id_validity < 11001)
        × (verify_ephemeral_id verifier 11001 "session" (record {
          session_type = cross_device;
          ephemeral_id = generate_ephemeral_id verifier "session" 1000;
          time = 1000;
        })
            ≡ err (expired_ephemeral_id (7 ∷ []))))
unfolding bytes_eq
verify_ephemeral_id-generate_example =
    verify_ephemeral_id-generate verifier 11001 1000 "session" cross_device (λ payload. refl)

started :
    (new_session verifier
      (memory {T = DisclosureData})
      fresh
      (items_request ∷ [])
      "login"
      (some "template")
      []).0
    ≡ ok "session"
unfolding new_session find_key write get_session insert_entry
started = refl

redirect_uri_and_nonce-new_session_example :
    (u : UseCase) × (find_key "login" verifier.use_cases ≡ some u)
    × ("session" ≡ fresh.session_token)
    × IsFitting verifier "session" (some "template") (
        redirect_uri_and_nonce verifier fresh "session" u.session_type_return_url same_device
          (some "template"))
redirect_uri_and_nonce-new_session_example =
    redirect_uri_and_nonce-new_session verifier (memory {T = DisclosureData}) fresh fresh
      (items_request ∷ []) "login" (some "template") same_device [] "session" started

requested :
    (process_get_request verifier
      (memory {T = DisclosureData})
      fresh
      "session"
      "uri"
      (some "query")
      (some "wallet nonce")
      (new_state ∷ [])).0
    ≡ ok "jws"
unfolding process_get_request checked_request get_created get_session_state get_session
    verify_ephemeral_id bytes_eq process_get_request_inner find_key validate_jwk new_request write
    insert_entry
requested = refl

process_get_request-IsRequested_example :
    (session : SessionState Created) × (params : VerifierUrlParameters)
    × (waiting : WaitingForResponse) × ((memory {T = DisclosureData}).get "session" (new_state ∷ [])
        ≡ ok (some (created_state session)))
    × ((text : String) × (◌≡◌ {A = Option String} (some "query") (some text))
        × (verifier.parse_query text ≡ some params))
    × (verify_ephemeral_id verifier 2000 "session" params ≡ ok tt)
    × IsRequested verifier fresh "session" "uri" params.session_type
        (some "wallet nonce")
        session.data_of
        "jws"
        waiting
    × ((memory {T = DisclosureData}).get "session"
          (process_get_request verifier
            (memory {T = DisclosureData})
            fresh
            "session"
            "uri"
            (some "query")
            (some "wallet nonce")
            (new_state ∷ [])).1
        ≡ ok (
            some (record {
              data_of = waiting_for_response waiting;
              token = "session";
              last_active = 2000;
            })))
process_get_request-IsRequested_example =
    process_get_request-IsRequested verifier (memory {T = DisclosureData}) fresh "session" "uri"
      (some "query") (some "wallet nonce") (new_state ∷ []) "jws" memory-IsStore requested
