-- ===== src/Openid4vc/Openid4vp/Responses.antt =====
-- The authorization responses: `VpAuthorizationResponse`.
use nl_wallet.Base.{
  ℕ, none, some, String, str_eq, Bytes, List, [], ◌∷◌, map, length, Exec, ok, err, guard, ok_or,
  unwrap, map_err, ◌>>=◌, ◌>>◌,
}
use nl_wallet.Mdoc.{Document, DeviceResponse, DisclosedAttributes, Crypto}
use nl_wallet.Mdoc.Verification.{verify_device_response}
use nl_wallet.Mdoc.Matching.{match_against_response}
use nl_wallet.Openid4vc.Dpop.{same_string}
use nl_wallet.Openid4vc.Issuer.{mso_mdoc}
use nl_wallet.Openid4vc.PresentationExchange.{InputDescriptorMappingObject, verify_submission}
use nl_wallet.Openid4vc.Openid4vp.{
  VpEncValues, a128gcm, a192gcm, a256gcm, IsoVpAuthorizationRequest, VpAuthorizationResponse,
  JweHeader, AuthResponseError, json, jwk_conversion, jwe, nonce_incorrect, utf8, missing_apu,
  missing_apv, state_incorrect, verification, missing_requested, unexpected_vp_count,
  presentation_submission_error, ResponseLib,
}

abbrev pub mapping_of : Document → InputDescriptorMappingObject
mapping_of doc = record { mapped_id = doc.doc_type; mapped_format = mso_mdoc; path = "$" }

abbrev pub made_response :
    DeviceResponse → IsoVpAuthorizationRequest → String → List Document → VpAuthorizationResponse
made_response device_response request random_id documents = record {
  vp_tokens = device_response ∷ [];
  presentation_submission = record {
    submission_id = random_id;
    definition_id = request.presentation_definition.id;
    descriptor_map = map mapping_of documents;
  };
  state = request.state;
}

-- `VpAuthorizationResponse::new`, with the random ID of the submission.
abbrev pub new_response :
    DeviceResponse
    → IsoVpAuthorizationRequest
    → String
    → Exec AuthResponseError VpAuthorizationResponse
new_response device_response request random_id = do
  documents ← unwrap device_response.documents
  ok (made_response device_response request random_id documents)

abbrev pub enc_name : VpEncValues → String
enc_name a128gcm = "A128GCM"
enc_name a192gcm = "A192GCM"
enc_name a256gcm = "A256GCM"

-- `device_response`: the only presentation.
abbrev pub device_response_of : List DeviceResponse → Exec AuthResponseError DeviceResponse
device_response_of [] = err (unexpected_vp_count 0)
device_response_of (d ∷ []) = ok d
device_response_of (d ∷ other ∷ rest) = err (unexpected_vp_count (length (d ∷ other ∷ rest)))

module _ (lib : ResponseLib) where
  abbrev pub header_of : IsoVpAuthorizationRequest → String → JweHeader
  header_of request mdoc_nonce = record {
    token_type = "JWT";
    agreement_partyuinfo = some (lib.to_utf8 mdoc_nonce);
    agreement_partyvinfo = some (lib.to_utf8 request.nonce);
    content_encryption = enc_name request.client_metadata.enc_values_supported;
  }

  unfoldable pub encrypt :
      VpAuthorizationResponse → IsoVpAuthorizationRequest → String → Exec AuthResponseError String
  encrypt response request mdoc_nonce = do
    payload ← ok_or (lib.to_json response) json
    encrypter ← ok_or (lib.encrypter_from_jwk request.encryption_pubkey) jwk_conversion
    ok_or (lib.encode_with_encrypter payload (header_of request mdoc_nonce) encrypter) jwe

  unfoldable pub new_encrypted :
      DeviceResponse → IsoVpAuthorizationRequest → String → String → Exec AuthResponseError String
  new_encrypted device_response request random_id mdoc_nonce = do
    response ← new_response device_response request random_id
    encrypt response request mdoc_nonce

  -- With the nonce of the mdoc.
  unfoldable pub decrypt :
      String → Bytes → String → Exec AuthResponseError (VpAuthorizationResponse × String)
  decrypt token private_key nonce = do
    decrypter ← ok_or (lib.decrypter_from_jwk private_key) jwk_conversion
    (payload, header) ← ok_or (lib.decode_with_decrypter token decrypter) jwe
    apv ← ok_or header.agreement_partyvinfo missing_apv
    jwe_nonce ← ok_or (lib.from_utf8 apv) utf8
    guard (str_eq nonce jwe_nonce) nonce_incorrect
    apu ← ok_or header.agreement_partyuinfo missing_apu
    mdoc_nonce ← ok_or (lib.from_utf8 apu) utf8
    response ← ok_or (lib.from_json payload) json
    ok (response, mdoc_nonce)

  -- `SessionTranscript::new_oid4vp`
  abbrev pub new_oid4vp : String → String → String → String → String
  new_oid4vp response_uri client_id nonce mdoc_nonce =
      lib.oid4vp_handover (lib.cbor_pair_sha256 client_id mdoc_nonce)
        (lib.cbor_pair_sha256 response_uri mdoc_nonce) nonce

  abbrev pub transcript_of : IsoVpAuthorizationRequest → String → String
  transcript_of request mdoc_nonce =
      new_oid4vp request.response_uri request.client_id request.nonce mdoc_nonce

  module _ (crypto : Crypto) where
    unfoldable pub verify_response :
        VpAuthorizationResponse
        → IsoVpAuthorizationRequest
        → String
        → ℕ
        → Exec AuthResponseError DisclosedAttributes
    verify_response response request mdoc_nonce now = do
      device_response ← device_response_of response.vp_tokens
      disclosed_attrs ← map_err verification (
          verify_device_response crypto device_response none (transcript_of request mdoc_nonce) now)
      map_err missing_requested (match_against_response request.items_requests device_response)
      documents ← unwrap device_response.documents
      map_err presentation_submission_error (
          verify_submission response.presentation_submission documents
            request.presentation_definition)
      guard (same_string response.state request.state)
          (state_incorrect request.state response.state)
      ok disclosed_attrs

    unfoldable pub decrypt_and_verify :
        String → Bytes → IsoVpAuthorizationRequest → ℕ → Exec AuthResponseError DisclosedAttributes
    decrypt_and_verify token private_key request now = do
      (response, mdoc_nonce) ← decrypt token private_key request.nonce
      verify_response response request mdoc_nonce now
