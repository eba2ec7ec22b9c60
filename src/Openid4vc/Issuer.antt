-- ===== src/Openid4vc/Issuer.antt =====
-- The issuer: openid4vc/src/issuer.rs, with the requests of credential.rs and token.rs.
-- Here: its sessions, its errors, and what it is given. `Credentials` decides what is issued in a session,
-- `Requests` are the endpoints on a store of sessions, `Sessions` what the endpoints keep.
pub mod Credentials
pub mod Requests
pub mod Sessions
pub mod Issued
pub mod TokenRequests
use nl_wallet.Base.{ℕ, Bool, true, false, Option, none, some, String, Bytes, List}
use nl_wallet.SessionStore.{
  Progress, active, finished, SessionData, SessionState, SessionStoreError,
}
use nl_wallet.Openid4vc.Dpop.{DpopError, Jwt, TokenData}

-- `attributes` is the text of the validity and the attributes, which the issuer passes on.
pub record UnsignedMdoc : Type 0 where
  pub doc_type : String
  pub attributes : String
  pub copy_count : ℕ

pub record AttestationPreview : Type 0 where
  pub unsigned_mdoc : UnsignedMdoc
  pub issuer : Bytes

pub data TokenRequestGrantType : Type 0 where
  authorization_code pre_authorized_code : String → TokenRequestGrantType

pub record TokenRequest : Type 0 where
  pub grant_type : TokenRequestGrantType
  pub code_verifier : Option String
  pub client_id : Option String
  pub redirect_uri : Option String

abbrev pub code_of_grant : TokenRequestGrantType → String
code_of_grant (authorization_code code) = code
code_of_grant (pre_authorized_code code) = code

pub data Format : Type 0 where
  mso_mdoc ldp_vc jwt_vc jwt_vc_json ac_vc : Format

-- The proof is the text of its JWT.
pub record CredentialRequest : Type 0 where
  pub format : Format
  pub doctype : Option String
  pub proof : Option String

pub record ProofPayload : Type 0 where
  pub iss : String
  pub aud : String
  pub nonce : Option String

pub data SessionResult : Type 0 where
  result_done result_cancelled result_expired : SessionResult
  result_failed : String → SessionResult

pub record Created : Type 0 where
  pub attestation_previews : Option (List AttestationPreview)

pub record WaitingForResponse : Type 0 where
  pub access_token : String
  pub c_nonce : String
  pub attestation_previews : List AttestationPreview
  pub dpop_public_key : Bytes
  pub dpop_nonce : String

pub data IssuanceData : Type 0 where
  created : Created → IssuanceData
  waiting_for_response : WaitingForResponse → IssuanceData
  done : SessionResult → IssuanceData

abbrev pub has_succeeded : SessionResult → Bool
has_succeeded result_done = true
has_succeeded result_cancelled = false
has_succeeded result_expired = false
has_succeeded (result_failed _) = false

abbrev pub progress_of : IssuanceData → Progress
progress_of (created _) = active
progress_of (waiting_for_response _) = active
progress_of (done r) = finished (has_succeeded r)

abbrev pub is_expired_data : IssuanceData → Bool
is_expired_data (done result_expired) = true
is_expired_data _ = false

-- `HasProgress` and `Expirable` for the sessions of the issuer.
abbrev pub issuance_data : SessionData IssuanceData
issuance_data = record {
  progress = progress_of;
  is_expired = is_expired_data;
  expire = λ _. done result_expired;
}

pub data IssuanceError : Type 0 where
  unexpected_state : IssuanceError
  unknown_session : String → IssuanceError
  session_store : SessionStoreError → IssuanceError
  dpop_invalid : DpopError → IssuanceError

pub data TokenRequestError : Type 0 where
  token_issuance_error : IssuanceError → TokenRequestError
  unsupported_token_request_type attribute_service : TokenRequestError

pub data CredentialRequestError : Type 0 where
  issuance_error : IssuanceError → CredentialRequestError
  unauthorized malformed_token use_batch_issuance missing_jwk incorrect_nonce :
      CredentialRequestError
  doctype_not_offered : String → CredentialRequestError
  unsupported_credential_format : Format → CredentialRequestError
  unsupported_jwt_algorithm jwt_decoding_failed jwk_conversion cose_key_conversion :
      CredentialRequestError
  missing_private_key : String → CredentialRequestError
  attestation_signing doctype_mismatch missing_credential_request_pop : CredentialRequestError

-- The settings of the issuer, the attribute service, the key ring, and the libraries that it calls. The
-- signature of an mdoc and the conversion to a COSE key are those of the mdoc crate; `describe` is the
-- text of an error, `get_from` is `str::get(n..)`.
pub record Issuer : Type 0 where
  pub jwt : Jwt
  pub decode_proof : String → Bytes → List String → String → Option (TokenData ProofPayload)
  pub cose_key : Bytes → Option Bytes
  pub key_pair : String → Option Bytes
  pub sign_mdoc : UnsignedMdoc → Bytes → Bytes → Option String
  pub attributes : SessionState Created → TokenRequest → Option (List AttestationPreview)
  pub describe : CredentialRequestError → String
  pub describe_token : TokenRequestError → String
  pub join : String → String → String
  pub append : String → String → String
  pub get_from : ℕ → String → Option String
  pub credential_issuer_identifier : String
  pub accepted_wallet_client_ids : List String
  pub server_url : String
