-- ===== src/Openid4vc/Verifier/Endpoints.antt =====
-- The requests to the verifier, on a store of sessions.
use nl_wallet.Base.{
  ℕ, Bool, true, false, not, Option, none, some, String, str_eq, List, is_empty, Exec, ok, err,
  panic, guard, ok_or, map_err, ◌>>=◌, ◌>>◌, find_key,
}
use nl_wallet.SessionStore.{SessionState}
use nl_wallet.SessionStore.Interface.{Store, with_session, written_next}
use nl_wallet.Mdoc.{ItemsRequest, DisclosedAttributes}
use nl_wallet.Openid4vc.Openid4vp.{AuthResponseError}
use nl_wallet.Openid4vc.Openid4vp.Responses.{decrypt_and_verify}
use nl_wallet.Openid4vc.Verifier.{
  RedirectUri, uri_from_option, Created, WaitingForResponse, SessionResult, result_done,
  result_failed, result_cancelled, result_expired, DisclosureData, created, waiting_for_response,
  done, SessionError, unknown_session, session_store, VerificationError, session_error,
  unknown_use_case, redirect_uri_nonce_mismatch, return_url_configuration_mismatch,
  no_items_requests, session_not_done, redirect_uri_nonce_missing, url_encoding,
  GetAuthRequestError, get_session_error, query_parameters_missing,
  query_parameters_deserialization, PostAuthResponseError, post_session_error, auth_response,
  WithRedirectUri, access_denied, VpAuthorizationErrorCode, authorization_error, ErrorResponse,
  WalletAuthResponse, wallet_response, wallet_error, SessionType, VerifierUrlParameters,
  StatusResponse, status_created, status_waiting_for_response, status_done, status_failed,
  status_cancelled, status_expired, Verifier, Fresh,
}
use nl_wallet.Openid4vc.Verifier.Steps.{
  transition, to_created, to_waiting, without_uri, with_uri, is_mismatch, verify_ephemeral_id,
  generate_ephemeral_id, process_get_request_inner,
}

module _ (verifier : Verifier) {S : Type 0} (sessions : Store DisclosureData S) where
  -- With the token that is drawn for the session.
  unfoldable pub new_session :
      Fresh → List ItemsRequest → String → Option String → S → Exec VerificationError String × S
  new_session fresh items_requests usecase_id template store =
      with_session
        (do
          guard (not (is_empty items_requests)) no_items_requests
          usecase ← ok_or (find_key usecase_id verifier.use_cases) (unknown_use_case usecase_id)
          guard (not (is_mismatch usecase.session_type_return_url template))
              return_url_configuration_mismatch
          ok usecase)
        (λ usecase store'.
          written_next (λ e. session_error (session_store e))
            (sessions.write
              (record {
                data_of = created (record {
                  items_requests = items_requests;
                  usecase_id = usecase_id;
                  client_id = usecase.usecase_client_id;
                  redirect_uri_template = template;
                });
                token = fresh.session_token;
                last_active = fresh.now;
              })
              true store')
            (ok fresh.session_token) store')
        store

  unfoldable pub get_session_state : String → S → Exec SessionError (SessionState DisclosureData)
  get_session_state session_token store = do
    found ← map_err session_store (sessions.get session_token store)
    ok_or found (unknown_session session_token)

  -- `get_session` for a session that is created, and for one that waits.
  unfoldable pub get_created : String → S → Exec SessionError (SessionState Created)
  get_created session_token store = get_session_state session_token store >>= to_created

  unfoldable pub get_waiting : String → S → Exec SessionError (SessionState WaitingForResponse)
  get_waiting session_token store = get_session_state session_token store >>= to_waiting

  -- What comes before the session is changed.
  unfoldable pub checked_request :
      Fresh
      → String
      → Option String
      → S
      → Exec (WithRedirectUri GetAuthRequestError) (SessionState Created × VerifierUrlParameters)
  checked_request fresh session_token query store = do
    session ← map_err (λ e. without_uri (get_session_error e)) (get_created session_token store)
    text ← ok_or query (without_uri query_parameters_missing)
    params ← ok_or (verifier.parse_query text) (without_uri query_parameters_deserialization)
    map_err without_uri (verify_ephemeral_id verifier fresh.now session_token params)
    ok (session, params)

  abbrev pub write_get :
      Option String
      → SessionState DisclosureData
      → Exec (WithRedirectUri GetAuthRequestError) String
      → S
      → Exec (WithRedirectUri GetAuthRequestError) String × S
  write_get uri next response store =
      written_next (λ e. record { error = get_session_error (session_store e); redirect_uri = uri })
        (sessions.write next false store) response store

  abbrev pub finish_get :
      Fresh
      → SessionState Created
      → Exec (WithRedirectUri GetAuthRequestError) (String × WaitingForResponse)
      → S
      → Exec (WithRedirectUri GetAuthRequestError) String × S
  finish_get fresh session (ok (jws, waiting)) store =
      write_get (uri_from_option waiting.redirect_uri)
        (transition fresh.now session (waiting_for_response waiting)) (ok jws) store
  finish_get fresh session (err e) store =
      write_get e.redirect_uri
        (transition fresh.now session (done (result_failed (verifier.describe_get e.error))))
        (err e) store
  finish_get fresh session panic store = (panic, store)

  unfoldable pub process_get_request :
      Fresh
      → String
      → String
      → Option String
      → Option String
      → S
      → Exec (WithRedirectUri GetAuthRequestError) String × S
  process_get_request fresh session_token response_uri query wallet_nonce store =
      with_session (checked_request fresh session_token query store)
        (λ found. finish_get fresh found.0 (
          process_get_request_inner verifier fresh found.0.data_of session_token response_uri
            found.1.session_type wallet_nonce))
        store

  -- The user refused.
  abbrev pub is_refusal : VpAuthorizationErrorCode → Bool
  is_refusal (authorization_error access_denied) = true
  is_refusal _ = false

  abbrev pub result_of_error : Bool → ErrorResponse → SessionResult
  result_of_error true e = result_cancelled
  result_of_error false e = result_failed (verifier.describe_user e)

  abbrev pub nonce_from_option : Option RedirectUri → Option String
  nonce_from_option none = none
  nonce_from_option (some u) = some u.nonce

  -- The response, here the redirect URI of `VpResponse`, after the session with its result is written.
  abbrev pub write_result :
      ℕ
      → SessionState WaitingForResponse
      → SessionResult
      → Exec (WithRedirectUri PostAuthResponseError) (Option String)
      → S
      → Exec (WithRedirectUri PostAuthResponseError) (Option String) × S
  write_result now session result response store =
      written_next
        (λ e. with_uri session.data_of.redirect_uri (post_session_error (session_store e)))
        (sessions.write (transition now session (done result)) false store) response store

  abbrev pub finish_response :
      ℕ
      → SessionState WaitingForResponse
      → Exec AuthResponseError DisclosedAttributes
      → S
      → Exec (WithRedirectUri PostAuthResponseError) (Option String) × S
  finish_response now session (ok disclosed) store =
      write_result now session
        (result_done disclosed (nonce_from_option session.data_of.redirect_uri))
        (ok (uri_from_option session.data_of.redirect_uri)) store
  finish_response now session (err e) store =
      write_result now session (result_failed (verifier.describe_response e))
        (err (with_uri session.data_of.redirect_uri (auth_response e))) store
  finish_response now session panic store = (panic, store)

  abbrev pub respond :
      ℕ
      → SessionState WaitingForResponse
      → WalletAuthResponse
      → S
      → Exec (WithRedirectUri PostAuthResponseError) (Option String) × S
  respond now session (wallet_error e) store =
      write_result now session (result_of_error (is_refusal e.error_code) e)
        (ok (uri_from_option session.data_of.redirect_uri)) store
  respond now session (wallet_response token) store =
      finish_response now session
        (decrypt_and_verify verifier.responses verifier.crypto token session.data_of.encryption_key
          session.data_of.auth_request now)
        store

  -- The time of the verification is taken to be that of the session.
  unfoldable pub process_authorization_response :
      ℕ
      → String
      → WalletAuthResponse
      → S
      → Exec (WithRedirectUri PostAuthResponseError) (Option String) × S
  process_authorization_response now session_token response store =
      with_session
        (map_err (λ e. without_uri (post_session_error e)) (get_waiting session_token store))
        (λ session. respond now session response) store

  unfoldable pub format_ul :
      String → String → VerifierUrlParameters → String → Exec VerificationError String
  format_ul base_ul request_uri params client_id = do
    query ← ok_or (verifier.encode_parameters params) url_encoding
    ul_query ←
        ok_or
          (verifier.encode_request_uri (record {
            request_uri = verifier.set_query request_uri query;
            request_client_id = client_id;
          }))
          url_encoding
    ok (verifier.set_query base_ul ul_query)

  abbrev pub status_of :
      ℕ
      → String
      → SessionType
      → String
      → String
      → DisclosureData
      → Exec VerificationError StatusResponse
  status_of now session_token session_type ul_base request_uri (created c) = do
    ul ←
        format_ul ul_base request_uri
          (record {
            session_type = session_type;
            ephemeral_id = generate_ephemeral_id verifier session_token now;
            time = now;
          })
          c.client_id
    ok (status_created ul)
  status_of now session_token session_type ul_base request_uri (waiting_for_response _) =
      ok status_waiting_for_response
  status_of now session_token session_type ul_base request_uri (done (result_done _ _)) =
      ok status_done
  status_of now session_token session_type ul_base request_uri (done (result_failed _)) =
      ok status_failed
  status_of now session_token session_type ul_base request_uri (done result_cancelled) =
      ok status_cancelled
  status_of now session_token session_type ul_base request_uri (done result_expired) =
      ok status_expired

  unfoldable pub status_response :
      ℕ → String → SessionType → String → String → S → Exec VerificationError StatusResponse
  status_response now session_token session_type ul_base request_uri store = do
    session ← map_err session_error (get_session_state session_token store)
    status_of now session_token session_type ul_base request_uri session.data_of

  -- The nonce that was received, and the expected one.
  abbrev pub verify_redirect_nonce :
      Option String → Option String → Exec VerificationError (Unit {0})
  verify_redirect_nonce received none = ok tt
  verify_redirect_nonce none (some expected) = err redirect_uri_nonce_missing
  verify_redirect_nonce (some received) (some expected) =
      guard (str_eq received expected) (redirect_uri_nonce_mismatch received)

  abbrev pub attributes_of :
      Option String → DisclosureData → Exec VerificationError DisclosedAttributes
  attributes_of received (done (result_done attrs expected)) = do
    verify_redirect_nonce received expected
    ok attrs
  attributes_of received (created _) = err session_not_done
  attributes_of received (waiting_for_response _) = err session_not_done
  attributes_of received (done (result_failed _)) = err session_not_done
  attributes_of received (done result_cancelled) = err session_not_done
  attributes_of received (done result_expired) = err session_not_done

  unfoldable pub disclosed_attributes :
      String → Option String → S → Exec VerificationError DisclosedAttributes
  disclosed_attributes session_token redirect_uri_nonce store = do
    session ← map_err session_error (get_session_state session_token store)
    attributes_of redirect_uri_nonce session.data_of
