-- ===== src/Mdoc/Returns.antt =====
-- The verification of a disclosure does not panic.
use nl_wallet.Base.{
  ℕ, ◌≢◌, Option, none, some, String, str_eq, Bytes, bytes_eq, List, [], ◌∷◌, ◌==◌, panic, guard,
  ok, ◌≡◌, ok-returns, err-returns, guard-returns, ok_or, ok_or-returns, map_err, map_err-returns,
  >>=-returns, find_key, insert_key, not, ltb,
}
use nl_wallet.Mdoc.Keys.{IsSized, to_verifying_key, to_verifying_key-returns}
use nl_wallet.Mdoc.Disclosed.{issuer_signed_lem}
use nl_wallet.Mdoc.{
  DocumentDisclosedAttributes, IssuerSignedItem, ValidityInfo, MobileSecurityObject, IssuerSigned,
  DeviceAuth, device_signature, device_mac, Document, DocumentError, DeviceResponse, ItemsRequest,
  AttributeIdentifier, DisclosedAttributes, parsing_failed, not_yet_valid, ValidityRequirement,
  allow_not_yet_valid, valid, unexpected_status, no_documents, missing_namespace, missing_digest_id,
  ephemeral_key_missing, cose, cbor, validity_error, Crypto,
}
use nl_wallet.Mdoc.Verification.{
  find_digest, verify_not_expired, verify_is_valid_at, verify_attr_digest,
  verify_attrs_in_namespace, verify_namespaces, verify_optional, verify_issuer_signed,
  verify_device_auth, verify_document, verify_documents, verify_no_errors, verify_device_response,
}
use nl_wallet.Mdoc.Matching.{not_found, require_none, match_against_response}

module _ (crypto : Crypto) where
  -- The device keys that issuers sign have coordinates of 32 bytes.
  abbrev pub AreSized : Type 0
  AreSized =
      (issuer_auth : Bytes) (now : ℕ) (mso : MobileSecurityObject)
      → crypto.verify_issuer issuer_auth now ≡ some mso
      → IsSized mso.device_key

  not_expired-returns : (info : ValidityInfo) (now : ℕ) → verify_not_expired crypto info now ≢ panic
  unfolding verify_not_expired
  not_expired-returns info now =
      >>=-returns (ok_or (crypto.parse_date info.valid_until) parsing_failed) _ (ok_or-returns _ _)
        (λ until _. guard-returns (not (ltb until now)) _)

  valid-returns :
      (info : ValidityInfo) (now : ℕ) (requirement : ValidityRequirement)
      → verify_is_valid_at crypto info now requirement ≢ panic
  unfolding verify_is_valid_at
  valid-returns info now allow_not_yet_valid = not_expired-returns info now
  valid-returns info now valid =
      >>=-returns (ok_or (crypto.parse_date info.valid_from) parsing_failed) _ (ok_or-returns _ _)
        (λ from _.
          >>=-returns (guard (not (ltb now from)) (not_yet_valid info.valid_from)) _
            (guard-returns _ _) (λ _ _. not_expired-returns info now))

  digest-returns :
      (mso : MobileSecurityObject) (namespace : String) (item : IssuerSignedItem)
      → verify_attr_digest crypto mso namespace item ≢ panic
  unfolding verify_attr_digest
  digest-returns mso namespace item =
      >>=-returns (ok_or (find_key namespace mso.value_digests) (missing_namespace namespace)) _
        (ok_or-returns _ _)
        (λ digests _.
          >>=-returns
            (ok_or (find_digest item.digest_id digests) (missing_digest_id item.digest_id)) _
            (ok_or-returns _ _)
            (λ digest _.
              >>=-returns (ok_or (crypto.cbor_digest item) cbor) _ (ok_or-returns _ _)
                (λ computed _. guard-returns (bytes_eq digest computed) _)))

  namespace-returns :
      (mso : MobileSecurityObject) (namespace : String) (items : List IssuerSignedItem)
      → verify_attrs_in_namespace crypto mso namespace items ≢ panic
  unfolding verify_attrs_in_namespace
  namespace-returns mso namespace [] = ok-returns
  namespace-returns mso namespace (item ∷ items) =
      >>=-returns (verify_attr_digest crypto mso namespace item) _
        (digest-returns mso namespace item)
        (λ _ _.
          >>=-returns (verify_attrs_in_namespace crypto mso namespace items) _
            (namespace-returns mso namespace items) (λ _ _. ok-returns))

  namespaces-returns :
      (mso : MobileSecurityObject) (spaces : List (String × List IssuerSignedItem))
      → verify_namespaces crypto mso spaces ≢ panic
  unfolding verify_namespaces
  namespaces-returns mso [] = ok-returns
  namespaces-returns mso ((namespace, items) ∷ rest) =
      >>=-returns (verify_attrs_in_namespace crypto mso namespace items) _
        (namespace-returns mso namespace items)
        (λ _ _.
          >>=-returns (verify_namespaces crypto mso rest) _ (namespaces-returns mso rest)
            (λ _ _. ok-returns))

  optional-returns :
      (mso : MobileSecurityObject) (spaces : Option (List (String × List IssuerSignedItem)))
      → verify_optional crypto mso spaces ≢ panic
  optional-returns mso none = ok-returns
  optional-returns mso (some spaces) = namespaces-returns mso spaces

  issuer_signed-returns :
      (signed : IssuerSigned) (requirement : ValidityRequirement) (now : ℕ)
      → verify_issuer_signed crypto signed requirement now ≢ panic
  unfolding verify_issuer_signed
  issuer_signed-returns signed requirement now =
      >>=-returns (ok_or (crypto.verify_issuer signed.issuer_auth now) cose) _ (ok_or-returns _ _)
        (λ mso _.
          >>=-returns
            (map_err validity_error (verify_is_valid_at crypto mso.validity_info now requirement)) _
            (map_err-returns _ _ (valid-returns mso.validity_info now requirement))
            (λ _ _.
              >>=-returns (verify_optional crypto mso signed.name_spaces) _
                (optional-returns mso signed.name_spaces)
                (λ _ _.
                  >>=-returns (ok_or (crypto.common_names signed.issuer_auth) cose) _
                    (ok_or-returns _ _) (λ _ _. ok-returns))))

  device_auth-returns :
      (auth : DeviceAuth) (reader : Option Bytes) (key transcript payload : Bytes)
      → verify_device_auth crypto auth reader key transcript payload ≢ panic
  unfolding verify_device_auth
  device_auth-returns (device_signature sig) reader key transcript payload = guard-returns _ _
  device_auth-returns (device_mac mac) reader key transcript payload =
      >>=-returns (ok_or reader ephemeral_key_missing) _ (ok_or-returns _ _) (λ r _.
        >>=-returns (ok_or (crypto.dh_hmac_key r key transcript) cose) _ (ok_or-returns _ _)
          (λ _ _. guard-returns _ _))

  issued_lem :
      (signed : IssuerSigned) (now : ℕ) (found : DocumentDisclosedAttributes)
      (mso : MobileSecurityObject)
      → verify_issuer_signed crypto signed valid now ≡ ok (found, mso)
      → crypto.verify_issuer signed.issuer_auth now ≡ some mso
  issued_lem signed now found mso e = (issuer_signed_lem crypto signed now found mso e).0

  document-returns :
      (doc : Document) (reader : Option Bytes) (transcript : String) (now : ℕ)
      → AreSized
      → verify_document crypto doc reader transcript now ≢ panic
  unfolding verify_document
  document-returns doc reader transcript now sized =
      >>=-returns (verify_issuer_signed crypto doc.issuer_signed valid now) _
        (issuer_signed-returns doc.issuer_signed valid now)
        (λ (_, mso) i.
          >>=-returns (guard (str_eq doc.doc_type mso.mso_doc_type) _) _ (guard-returns _ _) (λ _ _.
            >>=-returns (ok_or (crypto.transcript_bytes transcript) cbor) _ (ok_or-returns _ _)
              (λ encoded _.
                >>=-returns
                  (ok_or (crypto.device_authentication_bytes doc.doc_type transcript) cbor) _
                  (ok_or-returns _ _)
                  (λ payload _.
                    >>=-returns (to_verifying_key crypto mso.device_key) _
                      (to_verifying_key-returns crypto mso.device_key (
                        sized doc.issuer_signed.issuer_auth now mso
                          (issued_lem doc.issuer_signed now _ mso i)))
                      (λ key _.
                        >>=-returns
                          (verify_device_auth crypto doc.device_auth reader key encoded payload) _
                          (device_auth-returns doc.device_auth reader key encoded payload)
                          (λ _ _. ok-returns))))))

  documents-returns :
      (reader : Option Bytes) (transcript : String) (now : ℕ) (docs : List Document)
      (before : DisclosedAttributes)
      → AreSized
      → verify_documents crypto reader transcript now docs before ≢ panic
  unfolding verify_documents
  documents-returns reader transcript now [] before sized = ok-returns
  documents-returns reader transcript now (doc ∷ docs) before sized =
      >>=-returns (verify_document crypto doc reader transcript now) _
        (document-returns doc reader transcript now sized)
        (λ (t, a) _. documents-returns reader transcript now docs (insert_key t a before) sized)

  no_errors-returns :
      (errors : Option (List DocumentError)) → verify_no_errors crypto errors ≢ panic
  unfolding verify_no_errors
  no_errors-returns none = ok-returns
  no_errors-returns (some errors) = err-returns

  pub device_response-returns :
      (response : DeviceResponse) (reader : Option Bytes) (transcript : String) (now : ℕ)
      → AreSized
      → verify_device_response crypto response reader transcript now ≢ panic
  unfolding verify_device_response
  device_response-returns response reader transcript now sized =
      >>=-returns (verify_no_errors crypto response.document_errors) _
        (no_errors-returns response.document_errors)
        (λ _ _.
          >>=-returns (guard (response.status == 0) (unexpected_status response.status)) _
            (guard-returns _ _)
            (λ _ _.
              >>=-returns (ok_or response.documents no_documents) _ (ok_or-returns _ _)
                (λ documents _. documents-returns reader transcript now documents [] sized)))

pub match-returns :
    (requests : List ItemsRequest) (response : DeviceResponse)
    → match_against_response requests response ≢ panic
unfolding match_against_response
match-returns requests response = by_case (not_found requests response.documents)
  where
    by_case : (l : List AttributeIdentifier) → require_none l ≢ panic
    by_case [] = ok-returns
    by_case (a ∷ as') = err-returns
