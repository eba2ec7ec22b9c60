-- ===== src/Mdoc/Verification.antt =====
-- `DeviceResponse::verify` and what it calls. The time generator is taken to yield one time, `now`.
use nl_wallet.Base.{
  ℕ, not, Option, none, some, String, str_eq, Bytes, bytes_eq, List, [], ◌∷◌, ltb, ◌==◌,
  if◌then◌else◌, Exec, ok, err, guard, ok_or, map_err, ◌>>=◌, ◌>>◌, find_key, insert_key,
}
use nl_wallet.Mdoc.Keys.{to_verifying_key}
use nl_wallet.Mdoc.{
  Entry, IssuerSignedItem, ValidityInfo, MobileSecurityObject, IssuerSigned, DeviceAuth,
  device_signature, device_mac, Document, DocumentError, DeviceResponse,
  DocumentDisclosedAttributes, DisclosedAttributes, ValidityError, parsing_failed, not_yet_valid,
  expired, ValidityRequirement, allow_not_yet_valid, valid, VerificationError,
  device_response_errors, unexpected_status, no_documents, wrong_doc_type, missing_namespace,
  missing_digest_id, attribute_verification_failed, ephemeral_key_missing, cose, cbor,
  validity_error, Crypto,
}

unfoldable pub find_digest : ℕ → List (ℕ × Bytes) → Option Bytes
find_digest i [] = none
find_digest i ((j, d) ∷ ds) = if j == i then some d else find_digest i ds

module _ (crypto : Crypto) where
  -- The second test, with the error as the code makes it.
  unfoldable pub verify_not_expired : ValidityInfo → ℕ → Exec ValidityError (Unit {0})
  verify_not_expired info now = do
    until ← ok_or (crypto.parse_date info.valid_until) parsing_failed
    guard (not (ltb until now)) (expired info.valid_from)

  -- The first date is only parsed if it is required.
  unfoldable pub verify_is_valid_at :
      ValidityInfo → ℕ → ValidityRequirement → Exec ValidityError (Unit {0})
  verify_is_valid_at info now allow_not_yet_valid = verify_not_expired info now
  verify_is_valid_at info now valid = do
    from ← ok_or (crypto.parse_date info.valid_from) parsing_failed
    guard (not (ltb now from)) (not_yet_valid info.valid_from)
    verify_not_expired info now

  unfoldable pub verify_attr_digest :
      MobileSecurityObject → String → IssuerSignedItem → Exec VerificationError (Unit {0})
  verify_attr_digest mso namespace item = do
    digests ← ok_or (find_key namespace mso.value_digests) (missing_namespace namespace)
    digest ← ok_or (find_digest item.digest_id digests) (missing_digest_id item.digest_id)
    computed ← ok_or (crypto.cbor_digest item) cbor
    guard (bytes_eq digest computed) attribute_verification_failed

  abbrev pub entry_of : IssuerSignedItem → Entry
  entry_of item = record { name = item.element_identifier; value = item.element_value }

  unfoldable pub verify_attrs_in_namespace :
      MobileSecurityObject → String → List IssuerSignedItem → Exec VerificationError (List Entry)
  verify_attrs_in_namespace mso namespace [] = ok []
  verify_attrs_in_namespace mso namespace (item ∷ items) = do
    verify_attr_digest mso namespace item
    entries ← verify_attrs_in_namespace mso namespace items
    ok (entry_of item ∷ entries)

  -- The closure over the namespaces, collected in their order.
  unfoldable pub verify_namespaces :
      MobileSecurityObject
      → List (String × List IssuerSignedItem)
      → Exec VerificationError (List (String × List Entry))
  verify_namespaces mso [] = ok []
  verify_namespaces mso ((namespace, items) ∷ rest) = do
    entries ← verify_attrs_in_namespace mso namespace items
    others ← verify_namespaces mso rest
    ok ((namespace, entries) ∷ others)

  abbrev pub verify_optional :
      MobileSecurityObject
      → Option (List (String × List IssuerSignedItem))
      → Exec VerificationError (List (String × List Entry))
  verify_optional mso none = ok []
  verify_optional mso (some spaces) = verify_namespaces mso spaces

  unfoldable pub verify_issuer_signed :
      IssuerSigned
      → ValidityRequirement
      → ℕ
      → Exec VerificationError (DocumentDisclosedAttributes × MobileSecurityObject)
  verify_issuer_signed signed validity now = do
    mso ← ok_or (crypto.verify_issuer signed.issuer_auth now) cose
    map_err validity_error (verify_is_valid_at mso.validity_info now validity)
    attrs ← verify_optional mso signed.name_spaces
    names ← ok_or (crypto.common_names signed.issuer_auth) cose
    ok (record { attributes = attrs; issuer = names; validity = mso.validity_info }, mso)

  -- The `match` on the kind of device authentication.
  unfoldable pub verify_device_auth :
      DeviceAuth → Option Bytes → Bytes → Bytes → Bytes → Exec VerificationError (Unit {0})
  verify_device_auth (device_signature sig) eph_reader_key device_key transcript payload =
      guard (crypto.verify_signature device_key payload sig) cose
  verify_device_auth (device_mac mac) eph_reader_key device_key transcript payload = do
    reader_key ← ok_or eph_reader_key ephemeral_key_missing
    mac_key ← ok_or (crypto.dh_hmac_key reader_key device_key transcript) cose
    guard (crypto.verify_mac mac_key payload mac) cose

  -- A session transcript stands for itself as a text.
  unfoldable pub verify_document :
      Document
      → Option Bytes
      → String
      → ℕ
      → Exec VerificationError (String × DocumentDisclosedAttributes)
  verify_document doc eph_reader_key session_transcript now = do
    (attrs, mso) ← verify_issuer_signed doc.issuer_signed valid now
    guard (str_eq doc.doc_type mso.mso_doc_type) (wrong_doc_type doc.doc_type mso.mso_doc_type)
    transcript ← ok_or (crypto.transcript_bytes session_transcript) cbor
    payload ← ok_or (crypto.device_authentication_bytes doc.doc_type session_transcript) cbor
    device_key ← to_verifying_key crypto mso.device_key
    verify_device_auth doc.device_auth eph_reader_key device_key transcript payload
    ok (mso.mso_doc_type, attrs)

  -- The loop, with the attributes so far.
  unfoldable pub verify_documents :
      Option Bytes
      → String
      → ℕ
      → List Document
      → DisclosedAttributes
      → Exec VerificationError DisclosedAttributes
  verify_documents eph_reader_key transcript now [] attrs = ok attrs
  verify_documents eph_reader_key transcript now (doc ∷ docs) attrs = do
    (doc_type, doc_attrs) ← verify_document doc eph_reader_key transcript now
    verify_documents eph_reader_key transcript now docs (insert_key doc_type doc_attrs attrs)

  unfoldable pub verify_no_errors : Option (List DocumentError) → Exec VerificationError (Unit {0})
  verify_no_errors none = ok tt
  verify_no_errors (some errors) = err (device_response_errors errors)

  unfoldable pub verify_device_response :
      DeviceResponse → Option Bytes → String → ℕ → Exec VerificationError DisclosedAttributes
  verify_device_response response eph_reader_key transcript now = do
    verify_no_errors response.document_errors
    guard (response.status == 0) (unexpected_status response.status)
    documents ← ok_or response.documents no_documents
    verify_documents eph_reader_key transcript now documents []
