-- ===== src/Openid4vc/Issuer/Requests.antt =====
-- The endpoints of the issuer on a store of sessions.
use nl_wallet.Base.{
  ℕ, Bool, true, false, Option, none, some, String, Bytes, List, Exec, ok, err, panic, guard, ok_or,
  map_err, ◌>>=◌, ◌>>◌,
}
use nl_wallet.SessionStore.{SessionState}
use nl_wallet.SessionStore.Interface.{Store, with_session, written_next}
use nl_wallet.Openid4vc.Dpop.{verify_dpop}
use nl_wallet.Openid4vc.Issuer.{
  AttestationPreview, TokenRequestGrantType, authorization_code, pre_authorized_code, TokenRequest,
  code_of_grant, CredentialRequest, result_done, result_cancelled, result_failed, Created,
  WaitingForResponse, IssuanceData, created, waiting_for_response, done, IssuanceError,
  unexpected_state, unknown_session, session_store, dpop_invalid, TokenRequestError,
  token_issuance_error, unsupported_token_request_type, attribute_service, CredentialRequestError,
  issuance_error, malformed_token, Issuer,
}
use nl_wallet.Openid4vc.Issuer.Credentials.{
  authorize, process_credential_inner, process_batch_credential_inner,
}

-- What the endpoints draw: the time, and three random strings.
pub record Fresh : Type 0 where
  pub now : ℕ
  pub access_random : String
  pub c_nonce : String
  pub dpop_nonce : String

-- `transition`: a new state under the same token, active now.
abbrev pub transition : {A B : Type 0} → Fresh → SessionState A → B → SessionState B
transition fresh session state = record {
  data_of = state;
  token = session.token;
  last_active = fresh.now;
}

abbrev pub to_created : SessionState IssuanceData → Exec IssuanceError (SessionState Created)
to_created session = elim (session.data_of) [
  | created c ↦
      ok (record { data_of = c; token = session.token; last_active = session.last_active })
  | waiting_for_response _ ↦ err unexpected_state
  | done _ ↦ err unexpected_state
]

abbrev pub to_waiting :
    SessionState IssuanceData → Exec IssuanceError (SessionState WaitingForResponse)
to_waiting session = elim (session.data_of) [
  | created _ ↦ err unexpected_state
  | waiting_for_response w ↦
      ok (record { data_of = w; token = session.token; last_active = session.last_active })
  | done _ ↦ err unexpected_state
]

abbrev pub is_pre_authorized : TokenRequestGrantType → Bool
is_pre_authorized (pre_authorized_code _) = true
is_pre_authorized (authorization_code _) = false

-- `TokenResponseWithPreviews` with the DPoP nonce; the other fields of the token response are constant.
pub record TokenResponse : Type 0 where
  pub access_token : String
  pub c_nonce : String
  pub attestation_previews : List AttestationPreview
  pub dpop_nonce : String

pub data Response : Type 0 where
  credential : String → Response
  credentials : List String → Response
  rejected : Response

-- The requests that carry an access token.
pub data Request : Type 0 where
  credential_request : CredentialRequest → Request
  batch_request : List CredentialRequest → Request
  reject_request : String → Request

module _ (issuer : Issuer) where
  unfoldable pub process_token_request_inner :
      SessionState Created
      → TokenRequest
      → String
      → Fresh
      → Exec TokenRequestError (TokenResponse × Bytes)
  process_token_request_inner session request dpop fresh = do
    guard (is_pre_authorized request.grant_type) unsupported_token_request_type
    dpop_public_key ←
        map_err (λ e. token_issuance_error (dpop_invalid e))
          (verify_dpop issuer.jwt dpop (issuer.join issuer.credential_issuer_identifier "token")
            "POST" none)
    previews ← ok_or (issuer.attributes session request) attribute_service
    ok (
      record {
        access_token = issuer.append fresh.access_random (code_of_grant request.grant_type);
        c_nonce = fresh.c_nonce;
        attestation_previews = previews;
        dpop_nonce = fresh.dpop_nonce;
      },
      dpop_public_key,
    )

  -- The state after a token request that was granted.
  abbrev pub granted : TokenResponse → Bytes → IssuanceData
  granted response key = waiting_for_response (record {
    access_token = response.access_token;
    c_nonce = response.c_nonce;
    attestation_previews = response.attestation_previews;
    dpop_public_key = key;
    dpop_nonce = response.dpop_nonce;
  })

module _ (issuer : Issuer) {S : Type 0} (sessions : Store IssuanceData S) where
  -- The write of the next session, before the response is returned.
  abbrev pub write_next :
      {E A : Type 0}
      → (IssuanceError → E)
      → Bool
      → SessionState IssuanceData
      → Exec E A
      → S
      → Exec E A × S
  write_next wrap is_new next response store =
      written_next (λ e. wrap (session_store e)) (sessions.write next is_new store) response store

  abbrev pub finish_token_request :
      Fresh
      → SessionState Created
      → Exec TokenRequestError (TokenResponse × Bytes)
      → S
      → Exec TokenRequestError TokenResponse × S
  finish_token_request fresh session (ok (response, key)) store =
      write_next token_issuance_error true (transition fresh session (granted issuer response key))
        (ok response) store
  finish_token_request fresh session (err e) store =
      write_next token_issuance_error true
        (transition fresh session (done (result_failed (issuer.describe_token e)))) (err e) store
  finish_token_request fresh session panic store = (panic, store)

  -- `unwrap_or`: a new session if the store has none.
  abbrev pub or_created :
      Fresh → String → Option (SessionState IssuanceData) → SessionState IssuanceData
  or_created fresh token none = record {
    data_of = created (record { attestation_previews = none });
    token = token;
    last_active = fresh.now;
  }
  or_created fresh token (some s) = s

  unfoldable pub session_of_request :
      TokenRequest → Fresh → S → Exec TokenRequestError (SessionState Created)
  session_of_request request fresh store = do
    found ←
        map_err (λ e. token_issuance_error (session_store e))
          (sessions.get (code_of_grant request.grant_type) store)
    map_err token_issuance_error
        (to_created (or_created fresh (code_of_grant request.grant_type) found))

  unfoldable pub process_token_request :
      TokenRequest → String → Fresh → S → Exec TokenRequestError TokenResponse × S
  process_token_request request dpop fresh store =
      with_session (session_of_request request fresh store)
        (λ session.
          finish_token_request fresh session
            (process_token_request_inner issuer session request dpop fresh))
        store

  unfoldable pub get_session :
      String → S → Exec CredentialRequestError (SessionState WaitingForResponse)
  get_session code store = do
    found ← map_err (λ e. issuance_error (session_store e)) (sessions.get code store)
    session ← ok_or found (issuance_error (unknown_session code))
    map_err issuance_error (to_waiting session)

  -- The session of an access token.
  unfoldable pub session_of_token :
      String → S → Exec CredentialRequestError (SessionState WaitingForResponse)
  session_of_token access_token store = do
    code ← ok_or (issuer.get_from 32 access_token) malformed_token
    get_session code store

  abbrev pub finish :
      Fresh
      → SessionState WaitingForResponse
      → Exec CredentialRequestError Response
      → S
      → Exec CredentialRequestError Response × S
  finish fresh session (ok response) store =
      write_next issuance_error false (transition fresh session (done result_done)) (ok response)
        store
  finish fresh session (err e) store =
      write_next issuance_error false
        (transition fresh session (done (result_failed (issuer.describe e)))) (err e) store
  finish fresh session panic store = (panic, store)

  -- Without the authorization the session stays.
  abbrev pub reject_session :
      Fresh
      → SessionState WaitingForResponse
      → Exec CredentialRequestError (Unit {0})
      → S
      → Exec CredentialRequestError Response × S
  reject_session fresh session (ok _) store =
      write_next issuance_error false (transition fresh session (done result_cancelled))
        (ok rejected) store
  reject_session fresh session (err e) store = (err e, store)
  reject_session fresh session panic store = (panic, store)

  unfoldable pub respond :
      SessionState WaitingForResponse
      → String
      → String
      → Request
      → Fresh
      → S
      → Exec CredentialRequestError Response × S
  respond session access_token dpop (credential_request q) fresh store =
      finish fresh session
        (process_credential_inner issuer session.data_of q access_token dpop
          >>= (λ c. ok (credential c)))
        store
  respond session access_token dpop (batch_request qs) fresh store =
      finish fresh session
        (process_batch_credential_inner issuer session.data_of qs access_token dpop
          >>= (λ cs. ok (credentials cs)))
        store
  respond session access_token dpop (reject_request endpoint_name) fresh store =
      reject_session fresh session
        (authorize issuer session.data_of access_token dpop
          (issuer.join issuer.credential_issuer_identifier endpoint_name) "DELETE")
        store

  -- `process_credential`, `process_batch_credential` and `process_reject_issuance`, which find their
  -- session in the same way.
  unfoldable pub process_request :
      String → String → Request → Fresh → S → Exec CredentialRequestError Response × S
  process_request access_token dpop request fresh store =
      with_session (session_of_token access_token store)
        (λ session. respond session access_token dpop request fresh) store
