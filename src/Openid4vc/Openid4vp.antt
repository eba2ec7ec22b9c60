-- ===== src/Openid4vc/Openid4vp.antt =====
-- OpenID4VP: openid4vc/src/openid4vp.rs, with the requests of authorization.rs.
-- Here: the data of requests and responses, and what they call of libraries. `Requests` makes and checks
-- the authorization requests, `Responses` the wallet's responses; `Verified`, `Returns`, `RoundTrips` and `Validated` have
-- their theorems.
-- A URL is its text, an error that names a field carries this name.
pub mod Requests
pub mod Responses
pub mod Verified
pub mod Returns
pub mod RoundTrips
pub mod Validated
use nl_wallet.Base.{ℕ, Bool, Option, String, Bytes, List}
use nl_wallet.Mdoc.{DeviceResponse, ItemsRequest, VerificationError}
use nl_wallet.Openid4vc.PresentationExchange.{
  VpFormat, PresentationDefinition, PdConversionError, PresentationSubmission, PsError,
}

pub data ResponseType : Type 0 where
  code vp_token id_token : ResponseType

pub data ResponseMode : Type 0 where
  query fragment direct_post direct_post_jwt : ResponseMode

pub data PkceCodeChallenge : Type 0 where
  s256 plain : String → PkceCodeChallenge

-- The authorization details are their text.
pub record AuthorizationRequest : Type 0 where
  pub response_type : List ResponseType
  pub client_id : String
  pub redirect_uri : Option String
  pub state : Option String
  pub authorization_details : Option String
  pub request_uri : Option String
  pub code_challenge : Option PkceCodeChallenge
  pub scope : Option (List String)
  pub nonce : Option String
  pub response_mode : Option ResponseMode

pub data VpPresentationDefinition : Type 0 where
  direct_definition : PresentationDefinition → VpPresentationDefinition
  indirect_definition : String → VpPresentationDefinition

-- A JSON web key: its key type and curve, if they are texts, and its other parameters.
pub record Jwk : Type 0 where
  pub kty : Option String
  pub crv : Option String
  pub other_parameters : String

pub data VpJwks : Type 0 where
  direct_keys : List Jwk → VpJwks
  indirect_keys : String → VpJwks

pub data VpAlgValues : Type 0 where
  ecdh_es : VpAlgValues

pub data VpEncValues : Type 0 where
  a128gcm a192gcm a256gcm : VpEncValues

pub record ClientMetadata : Type 0 where
  pub jwks : VpJwks
  pub vp_formats : VpFormat
  pub alg_values_supported : VpAlgValues
  pub enc_values_supported : VpEncValues

pub data VpClientMetadata : Type 0 where
  direct_metadata : ClientMetadata → VpClientMetadata
  indirect_metadata : String → VpClientMetadata

pub data ClientIdScheme : Type 0 where
  pre_registered redirect_uri_scheme entity_id did verifier_attestation x509_san_dns x509_san_uri :
      ClientIdScheme

-- The audience has one value.
pub record VpAuthorizationRequest : Type 0 where
  pub oauth_request : AuthorizationRequest
  pub presentation_definition : VpPresentationDefinition
  pub client_metadata : Option VpClientMetadata
  pub client_id_scheme : Option ClientIdScheme
  pub response_uri : Option String
  pub wallet_nonce : Option String

pub record IsoVpAuthorizationRequest : Type 0 where
  pub client_id : String
  pub nonce : String
  pub encryption_pubkey : Jwk
  pub response_uri : String
  pub items_requests : List ItemsRequest
  pub presentation_definition : PresentationDefinition
  pub client_metadata : ClientMetadata
  pub state : Option String
  pub wallet_nonce : Option String

pub data AuthRequestError : Type 0 where
  certificate_error missing_subject : AuthRequestError

pub data JwtX5cError : Type 0 where
  jwt_error missing_certificates certificate_base64 certificate_validation certificate_public_key :
      JwtX5cError

pub data AuthRequestValidationError : Type 0 where
  unexpected_field expected_field_missing unsupported_field_value uri_variant_not_supported
        unsupported_jwk :
      String → AuthRequestValidationError
  unexpected_jwk_amount : ℕ → AuthRequestValidationError
  no_attributes_requested missing_san certificate_parsing wallet_nonce_mismatch :
      AuthRequestValidationError
  unsupported_presentation_definition : PdConversionError → AuthRequestValidationError
  unauthorized_client_id : String → String → AuthRequestValidationError
  jwt_verification : JwtX5cError → AuthRequestValidationError

-- `vp_token` has device responses, the only presentations there are.
pub record VpAuthorizationResponse : Type 0 where
  pub vp_tokens : List DeviceResponse
  pub presentation_submission : PresentationSubmission
  pub state : Option String

pub record JweHeader : Type 0 where
  pub token_type : String
  pub agreement_partyuinfo : Option Bytes
  pub agreement_partyvinfo : Option Bytes
  pub content_encryption : String

pub data AuthResponseError : Type 0 where
  json jwk_conversion jwe nonce_incorrect utf8 missing_apu missing_apv : AuthResponseError
  state_incorrect : Option String → Option String → AuthResponseError
  verification missing_requested : VerificationError → AuthResponseError
  unexpected_vp_count : ℕ → AuthResponseError
  presentation_submission_error : PsError → AuthResponseError

-- The libraries of the requests: X.509 and JSON web signatures, and the pattern of the field paths.
pub record RequestLib : Type 0 where
  pub captures : String → Option (String × String)
  pub san_dns_name : Bytes → Option (Option String)
  pub x5c_of : String → Option (Option (List String))
  pub decode_base64 : String → Option Bytes
  pub verify_certificate : Bytes → List Bytes → Bool
  pub public_key : Bytes → Option Bytes
  pub decode_request : String → Bytes → Option VpAuthorizationRequest

-- The libraries of the responses: josekit, serde_json and CBOR.
pub record ResponseLib : Type 0 where
  pub to_json : VpAuthorizationResponse → Option String
  pub from_json : String → Option VpAuthorizationResponse
  pub encrypter_from_jwk : Jwk → Option Bytes
  pub decrypter_from_jwk : Bytes → Option Bytes
  pub encode_with_encrypter : String → JweHeader → Bytes → Option String
  pub decode_with_decrypter : String → Bytes → Option (String × JweHeader)
  pub to_utf8 : String → Bytes
  pub from_utf8 : Bytes → Option String
  pub cbor_pair_sha256 : String → String → Bytes
  pub oid4vp_handover : Bytes → Bytes → String → String
