-- ===== src/Mdoc.antt =====
-- Mobile documents (ISO 18013-5) and what a holder discloses of them: mdoc/src/iso and mdoc/src/verifier.rs.
-- Here: the data of a disclosure. `Verification` is the check of a disclosure, `Matching` its comparison
-- with what was requested; `Disclosed`, `Complete` with the lemmas in `Found`, `Repeated` and
-- `Returns` have their theorems.
-- CBOR and COSE, X.509 certificates and the key agreement are the parameter `Crypto`; the value of an
-- attribute and a date are their texts. `Keys` reads the device key.
pub mod Keys
pub mod Verification
pub mod Matching
pub mod Disclosed
pub mod Found
pub mod Complete
pub mod Repeated
pub mod Returns
use nl_wallet.Base.{ℕ, Bool, Option, String, Bytes, List}

pub record Entry : Type 0 where
  pub name : String
  pub value : String

pub record IssuerSignedItem : Type 0 where
  pub digest_id : ℕ
  pub random : Bytes
  pub element_identifier : String
  pub element_value : String

pub record ValidityInfo : Type 0 where
  pub signed : String
  pub valid_from : String
  pub valid_until : String
  pub expected_update : Option String

-- A label of a COSE key: an integer by its sign, or a text.
pub data CoseLabel : Type 0 where
  minus plus : ℕ → CoseLabel
  text_label : String → CoseLabel

-- The values that a COSE key is read for; others are their texts.
pub data CborValue : Type 0 where
  integer : ℕ → CborValue
  byte_string : Bytes → CborValue
  other_value : String → CborValue

-- `coset::CoseKey`: whether its type is EC2, and its parameters.
pub record CoseKey : Type 0 where
  pub is_ec2 : Bool
  pub params : List (CoseLabel × CborValue)

-- Digests by namespace and digest ID. Version and algorithm have one value each.
pub record MobileSecurityObject : Type 0 where
  pub value_digests : List (String × List (ℕ × Bytes))
  pub device_key : CoseKey
  pub mso_doc_type : String
  pub validity_info : ValidityInfo

-- `issuer_auth` is the encoded COSE structure.
pub record IssuerSigned : Type 0 where
  pub name_spaces : Option (List (String × List IssuerSignedItem))
  pub issuer_auth : Bytes

pub data DeviceAuth : Type 0 where
  device_signature device_mac : Bytes → DeviceAuth

-- The self-asserted attributes and the `errors` of a document are not read by the verification.
pub record Document : Type 0 where
  pub doc_type : String
  pub issuer_signed : IssuerSigned
  pub device_auth : DeviceAuth

abbrev pub DocumentError : Type 0
DocumentError = List (String × ℕ)

pub record DeviceResponse : Type 0 where
  pub documents : Option (List Document)
  pub document_errors : Option (List DocumentError)
  pub status : ℕ

-- Attributes by namespace, each with `intent_to_retain`. `request_info` is a map of CBOR values, here a text.
pub record ItemsRequest : Type 0 where
  pub requested_type : String
  pub requested_spaces : List (String × List (String × Bool))
  pub request_info : Option String

pub record AttributeIdentifier : Type 0 where
  pub of_type : String
  pub namespace : String
  pub attribute : String

pub record DocumentDisclosedAttributes : Type 0 where
  pub attributes : List (String × List Entry)
  pub issuer : List String
  pub validity : ValidityInfo

-- By document type.
abbrev pub DisclosedAttributes : Type 0
DisclosedAttributes = List (String × DocumentDisclosedAttributes)

pub data ValidityError : Type 0 where
  parsing_failed : ValidityError
  not_yet_valid expired : String → ValidityError

pub data ValidityRequirement : Type 0 where
  allow_not_yet_valid valid : ValidityRequirement

-- Those of the errors that a verification can end with, `cose` and `cbor` from the libraries.
pub data VerificationError : Type 0 where
  device_response_errors : List DocumentError → VerificationError
  unexpected_status : ℕ → VerificationError
  no_documents : VerificationError
  wrong_doc_type : String → String → VerificationError
  missing_namespace : String → VerificationError
  missing_digest_id : ℕ → VerificationError
  attribute_verification_failed ephemeral_key_missing cose cbor : VerificationError
  validity_error : ValidityError → VerificationError
  missing_attributes : List AttributeIdentifier → VerificationError

-- What the verification calls. `verify_issuer` verifies a COSE structure with its certificate against the
-- trust anchors at a time, and reads its payload; `from_affine_coordinates` is the point of two coordinates,
-- if it is on the curve.
pub record Crypto : Type 0 where
  pub verify_issuer : Bytes → ℕ → Option MobileSecurityObject
  pub common_names : Bytes → Option (List String)
  pub cbor_digest : IssuerSignedItem → Option Bytes
  pub parse_date : String → Option ℕ
  pub transcript_bytes : String → Option Bytes
  pub device_authentication_bytes : String → String → Option Bytes
  pub from_affine_coordinates : Bytes → Bytes → Option Bytes
  pub verify_signature : Bytes → Bytes → Bytes → Bool
  pub dh_hmac_key : Bytes → Bytes → Bytes → Option Bytes
  pub verify_mac : Bytes → Bytes → Bytes → Bool
