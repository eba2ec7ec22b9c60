-- ===== src/Openid4vc/Verifier.antt =====
-- The verifier of disclosures: openid4vc/src/verifier.rs, with the settings of mdoc/src/verifier.rs.
-- Here: its sessions, its errors, and what it is given. `Steps` are the steps of a session,
-- `Endpoints` the requests on a store of sessions; `Answered`, `Released`, `Started` and `Requested` have their theorems.
-- Times are milliseconds, URLs and templates are their texts.
pub mod Steps
pub mod Endpoints
pub mod Answered
pub mod Released
pub mod Started
pub mod Requested
use nl_wallet.Base.{ℕ, Bool, true, false, Option, none, some, String, Bytes, List}
use nl_wallet.SessionStore.{
  Progress, active, finished, SessionData, SessionState, SessionStoreError,
}
use nl_wallet.Mdoc.{ItemsRequest, DisclosedAttributes, Crypto}
use nl_wallet.Openid4vc.Openid4vp.{
  Jwk, VpAuthorizationRequest, IsoVpAuthorizationRequest, AuthRequestError, AuthResponseError,
  RequestLib, ResponseLib,
}

pub record RedirectUri : Type 0 where
  pub uri : String
  pub nonce : String

abbrev pub uri_from_option : Option RedirectUri → Option String
uri_from_option none = none
uri_from_option (some u) = some u.uri

pub record Created : Type 0 where
  pub items_requests : List ItemsRequest
  pub usecase_id : String
  pub client_id : String
  pub redirect_uri_template : Option String

pub record WaitingForResponse : Type 0 where
  pub auth_request : IsoVpAuthorizationRequest
  pub encryption_key : Bytes
  pub redirect_uri : Option RedirectUri

-- `Done` with the attributes and the nonce of the redirect URI.
pub data SessionResult : Type 0 where
  result_done : DisclosedAttributes → Option String → SessionResult
  result_failed : String → SessionResult
  result_cancelled result_expired : SessionResult

pub data DisclosureData : Type 0 where
  created : Created → DisclosureData
  waiting_for_response : WaitingForResponse → DisclosureData
  done : SessionResult → DisclosureData

abbrev pub has_succeeded : SessionResult → Bool
has_succeeded (result_done _ _) = true
has_succeeded (result_failed _) = false
has_succeeded result_cancelled = false
has_succeeded result_expired = false

abbrev pub progress_of : DisclosureData → Progress
progress_of (created _) = active
progress_of (waiting_for_response _) = active
progress_of (done r) = finished (has_succeeded r)

abbrev pub is_expired_data : DisclosureData → Bool
is_expired_data (done result_expired) = true
is_expired_data _ = false

-- `HasProgress` and `Expirable` for the sessions of the verifier.
abbrev pub disclosure_data : SessionData DisclosureData
disclosure_data = record {
  progress = progress_of;
  is_expired = is_expired_data;
  expire = λ _. done result_expired;
}

pub data SessionError : Type 0 where
  unexpected_state expired : SessionError
  unknown_session : String → SessionError
  session_store : SessionStoreError → SessionError

pub data VerificationError : Type 0 where
  session_error : SessionError → VerificationError
  unknown_use_case redirect_uri_nonce_mismatch : String → VerificationError
  return_url_configuration_mismatch no_items_requests session_not_done redirect_uri_nonce_missing
        missing_san certificate_error url_encoding :
      VerificationError

pub data GetAuthRequestError : Type 0 where
  get_session_error : SessionError → GetAuthRequestError
  invalid_ephemeral_id expired_ephemeral_id : Bytes → GetAuthRequestError
  encryption_key jwt get_return_url_configuration_mismatch query_parameters_missing
        query_parameters_deserialization :
      GetAuthRequestError
  auth_request : AuthRequestError → GetAuthRequestError
  get_unknown_use_case : String → GetAuthRequestError

pub data PostAuthResponseError : Type 0 where
  post_session_error : SessionError → PostAuthResponseError
  auth_response : AuthResponseError → PostAuthResponseError

pub record WithRedirectUri (E : Type 0) : Type 0 where
  pub error : E
  pub redirect_uri : Option String

pub data AuthorizationErrorCode : Type 0 where
  invalid_request unauthorized_client access_denied unsupported_response_type invalid_scope
        server_error temporarily_unavailable :
      AuthorizationErrorCode

pub data VpAuthorizationErrorCode : Type 0 where
  vp_formats_not_supported invalid_presentation_definition_uri
        invalid_presentation_definition_reference invalid_request_uri_method :
      VpAuthorizationErrorCode
  authorization_error : AuthorizationErrorCode → VpAuthorizationErrorCode

pub record ErrorResponse : Type 0 where
  pub error_code : VpAuthorizationErrorCode
  pub error_description : Option String
  pub error_uri : Option String

-- What a wallet posts: a token, or an error.
pub data WalletAuthResponse : Type 0 where
  wallet_response : String → WalletAuthResponse
  wallet_error : ErrorResponse → WalletAuthResponse

pub data SessionType : Type 0 where
  same_device cross_device : SessionType

pub data SessionTypeReturnUrl : Type 0 where
  neither same_device_url both : SessionTypeReturnUrl

pub record UseCase : Type 0 where
  pub certificate : Bytes
  pub private_key : Bytes
  pub usecase_client_id : String
  pub session_type_return_url : SessionTypeReturnUrl

pub record VerifierUrlParameters : Type 0 where
  pub session_type : SessionType
  pub ephemeral_id : Bytes
  pub time : ℕ

-- The method of the request URI is always POST.
pub record VpRequestUriObject : Type 0 where
  pub request_uri : String
  pub request_client_id : String

pub data StatusResponse : Type 0 where
  status_created : String → StatusResponse
  status_waiting_for_response status_done status_failed status_cancelled status_expired :
      StatusResponse

-- The settings of the verifier, and the libraries that it calls: HMAC with the secret for ephemeral IDs,
-- signing with a certificate, and URLs. `strfmt` puts the session token in a template, and has no result where
-- the template has another placeholder; `append_nonce` adds a query parameter. The `describe` fields are the texts of errors.
pub record Verifier : Type 0 where
  pub use_cases : List (String × UseCase)
  pub requests : RequestLib
  pub responses : ResponseLib
  pub crypto : Crypto
  pub hmac_sign : Bytes → Bytes
  pub hmac_verify : Bytes → Bytes → Bool
  pub to_rfc3339 : ℕ → String
  pub bytes_of : String → Bytes
  pub sign_with_certificate : VpAuthorizationRequest → UseCase → Option String
  pub parse_query : String → Option VerifierUrlParameters
  pub encode_parameters : VerifierUrlParameters → Option String
  pub encode_request_uri : VpRequestUriObject → Option String
  pub set_query : String → String → String
  pub strfmt : String → String → Option String
  pub parse_url : String → Option String
  pub append_nonce : String → String → String
  pub describe_get : GetAuthRequestError → String
  pub describe_response : AuthResponseError → String
  pub describe_user : ErrorResponse → String

-- What a request draws: the time, random texts, and a key pair, whose generation may fail.
pub record Fresh : Type 0 where
  pub now : ℕ
  pub session_token : String
  pub request_nonce : String
  pub redirect_nonce : String
  pub definition_id : String
  pub key_pair : Option (Bytes × Jwk)
