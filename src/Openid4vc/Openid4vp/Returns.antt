-- ===== src/Openid4vc/Openid4vp/Returns.antt =====
-- The verification of a response does not panic.
use nl_wallet.Base.{
  ℕ, ◌≡◌, ◌≢◌, Option, none, some, String, str_eq, Bytes, List, [], ◌∷◌, length, ok, panic,
  ok-returns, err-returns, guard, guard-returns, ok_or, ok_or-ok, ok_or-returns, unwrap, map_err,
  map_err-ok, map_err-returns, >>=-ok, >>=-returns, ◌==◌,
}
use nl_wallet.Mdoc.{
  Document, DeviceResponse, DisclosedAttributes, unexpected_status, no_documents, Crypto,
}
use nl_wallet.Mdoc.Verification.{verify_device_response, verify_no_errors}
use nl_wallet.Mdoc.Matching.{match_against_response}
use nl_wallet.Mdoc.Returns.{AreSized, device_response-returns, match-returns}
use nl_wallet.Openid4vc.Dpop.{same_string}
use nl_wallet.Openid4vc.PresentationExchange.{
  PresentationDefinition, InputDescriptorMappingObject, PresentationSubmission, verify_descriptors,
  verify_submission,
}
use nl_wallet.Openid4vc.Openid4vp.{
  IsoVpAuthorizationRequest, AuthResponseError, json, jwk_conversion, jwe, nonce_incorrect, utf8,
  missing_apu, missing_apv, verification, missing_requested, presentation_submission_error,
  ResponseLib,
}
use nl_wallet.Openid4vc.Openid4vp.Responses.{
  device_response_of, decrypt, transcript_of, verify_response, decrypt_and_verify,
}

verify_descriptors-returns :
    (docs : List Document) (ds : List InputDescriptorMappingObject)
    → verify_descriptors docs ds ≢ panic
unfolding verify_descriptors
verify_descriptors-returns [] ds = ok-returns
verify_descriptors-returns (doc ∷ docs) [] = ok-returns
verify_descriptors-returns (doc ∷ docs) (d ∷ ds) =
    >>=-returns (guard (str_eq d.path "$") _) _ (guard-returns _ _) (λ _ _.
      >>=-returns (guard (str_eq d.mapped_id doc.doc_type) _) _ (guard-returns _ _)
        (λ _ _. verify_descriptors-returns docs ds))

submission-returns :
    (s : PresentationSubmission) (docs : List Document) (definition : PresentationDefinition)
    → verify_submission s docs definition ≢ panic
unfolding verify_submission
submission-returns s docs definition =
    >>=-returns (guard (str_eq s.definition_id definition.id) _) _ (guard-returns _ _) (λ _ _.
      >>=-returns (guard (length s.descriptor_map == length docs) _) _ (guard-returns _ _)
        (λ _ _. verify_descriptors-returns docs s.descriptor_map))

decrypt-returns :
    (lib : ResponseLib) (token : String) (private_key : Bytes) (nonce : String)
    → decrypt lib token private_key nonce ≢ panic
unfolding decrypt
decrypt-returns lib token private_key nonce =
    >>=-returns (ok_or (lib.decrypter_from_jwk private_key) jwk_conversion) _ (ok_or-returns _ _)
      (λ k _.
        >>=-returns (ok_or (lib.decode_with_decrypter token k) jwe) _ (ok_or-returns _ _)
          (λ (payload, header) _.
            >>=-returns (ok_or header.agreement_partyvinfo missing_apv) _ (ok_or-returns _ _)
              (λ apv _. >>=-returns (ok_or (lib.from_utf8 apv) utf8) _ (ok_or-returns _ _) (λ n _.
                >>=-returns (guard (str_eq nonce n) nonce_incorrect) _ (guard-returns _ _) (λ _ _.
                  >>=-returns (ok_or header.agreement_partyuinfo missing_apu) _ (ok_or-returns _ _)
                    (λ apu _.
                      >>=-returns (ok_or (lib.from_utf8 apu) utf8) _ (ok_or-returns _ _) (λ _ _.
                        >>=-returns (ok_or (lib.from_json payload) json) _ (ok_or-returns _ _)
                          (λ _ _. ok-returns))))))))

only_response-returns : (tokens : List DeviceResponse) → device_response_of tokens ≢ panic
only_response-returns [] = err-returns
only_response-returns (d ∷ []) = ok-returns
only_response-returns (d ∷ x ∷ rest) = err-returns

-- A device response that verifies has documents.
has_documents :
    (crypto : Crypto) (d : DeviceResponse) (reader : Option Bytes) (transcript : String) (now : ℕ)
    (attrs : DisclosedAttributes)
    → verify_device_response crypto d reader transcript now ≡ ok attrs
    → (docs : List Document) × (d.documents ≡ some docs)
unfolding verify_device_response
has_documents crypto d reader transcript now attrs e =
    let (_, _, e1) = >>=-ok (verify_no_errors crypto d.document_errors) _ e in
    let (_, _, e2) = >>=-ok (guard (d.status == 0) (unexpected_status d.status)) _ e1 in
    let (docs, p, _) = >>=-ok (ok_or d.documents no_documents) _ e2 in
    (docs, ok_or-ok d.documents no_documents p)

-- If the device keys that issuers sign have coordinates of 32 bytes, then every token ends in attributes or
-- an error: the verification does not panic, also where it takes the
-- documents of the device response to be present.
pub decrypt_and_verify-returns :
    (lib : ResponseLib) (crypto : Crypto) (token : String) (private_key : Bytes)
    (request : IsoVpAuthorizationRequest) (now : ℕ)
    → AreSized crypto
    → decrypt_and_verify lib crypto token private_key request now ≢ panic
unfolding decrypt_and_verify verify_response
decrypt_and_verify-returns lib crypto token private_key request now sized =
    >>=-returns (decrypt lib token private_key request.nonce) _
      (decrypt-returns lib token private_key request.nonce)
      (λ (response, mdoc_nonce) _.
        >>=-returns (device_response_of response.vp_tokens) _
          (only_response-returns response.vp_tokens)
          (λ d _.
            let verified =
              verify_device_response crypto d none (transcript_of lib request mdoc_nonce) now in
            >>=-returns (map_err verification verified) _
              (map_err-returns _ _ (
                device_response-returns crypto d none (transcript_of lib request mdoc_nonce) now
                  sized))
              (λ attrs v.
                >>=-returns
                  (map_err missing_requested (match_against_response request.items_requests d)) _
                  (map_err-returns _ _ (match-returns request.items_requests d))
                  (λ _ _.
                    let (docs, p) =
                      has_documents crypto d none (transcript_of lib request mdoc_nonce) now attrs
                        (map_err-ok verification verified v) in
                    >>=-returns (unwrap d.documents) _ (unwrapped d.documents docs p)
                      (λ documents _.
                        >>=-returns
                          (map_err presentation_submission_error (
                            verify_submission response.presentation_submission documents
                              request.presentation_definition))
                          _
                          (map_err-returns _ _ (
                            submission-returns response.presentation_submission documents
                              request.presentation_definition))
                          (λ _ _.
                            >>=-returns (guard (same_string response.state request.state) _) _
                              (guard-returns _ _) (λ _ _. ok-returns)))))))
  where
    unwrapped :
        (o : Option (List Document)) (docs : List Document)
        → o ≡ some docs
        → unwrap {E = AuthResponseError} o ≢ panic
    unwrapped (some x) docs p = ok-returns
    unwrapped none docs p = cc
