-- ===== src/Openid4vc/Openid4vp/RoundTrips.antt =====
-- A response arrives as it was sent.
use nl_wallet.Base.{
  ℕ, ◌≡◌, refl, ap, subst, true, Option, none, some, String, str_eq, eq_iff, Bytes, List, [], ◌∷◌,
  map, length, suc, ◌==◌, ok, ok_or, ok_or-ok, >>=-ok, arith,
}
use nl_wallet.Mdoc.{Document, DeviceResponse, DisclosedAttributes, Crypto}
use nl_wallet.Mdoc.Verification.{verify_device_response}
use nl_wallet.Mdoc.Matching.{match_against_response}
use nl_wallet.Openid4vc.Dpop.{same_string}
use nl_wallet.Openid4vc.PresentationExchange.{verify_descriptors, verify_submission}
use nl_wallet.Openid4vc.Openid4vp.{
  IsoVpAuthorizationRequest, VpAuthorizationResponse, json, jwk_conversion, jwe, ResponseLib,
}
use nl_wallet.Openid4vc.Openid4vp.Responses.{
  mapping_of, made_response, new_response, header_of, encrypt, new_encrypted, decrypt,
  transcript_of, verify_response, decrypt_and_verify,
}

-- What the round trip of a response relies on: its payload, encrypted for the key of the request with
-- the two nonces, is decrypted with the private key to the same payload and header, and the response and
-- the nonces are read back from JSON and UTF-8.
pub record IsResponseLib (lib : ResponseLib) (request : IsoVpAuthorizationRequest)
    (private_key : Bytes) (response : VpAuthorizationResponse) (mdoc_nonce : String) : Type 0 where
  pub decrypter : Bytes
  pub keyed : lib.decrypter_from_jwk private_key ≡ some decrypter
  pub paired :
      (payload token : String) (encrypter : Bytes)
      → lib.encrypter_from_jwk request.encryption_pubkey ≡ some encrypter
      → lib.encode_with_encrypter payload (header_of lib request mdoc_nonce) encrypter ≡ some token
      → lib.decode_with_decrypter token decrypter ≡ some (payload, header_of lib request mdoc_nonce)
  pub json_read :
      (payload : String)
      → lib.to_json response ≡ some payload
      → lib.from_json payload ≡ some response
  pub nonce_read : lib.from_utf8 (lib.to_utf8 request.nonce) ≡ some request.nonce
  pub mdoc_nonce_read : lib.from_utf8 (lib.to_utf8 mdoc_nonce) ≡ some mdoc_nonce

str_eq_self : (s : String) → str_eq s s ≡ true
str_eq_self s = (eq_iff s s).1 refl

same_string_self : (o : Option String) → same_string o o ≡ true
same_string_self none = refl
same_string_self (some s) = str_eq_self s

decrypt-encrypt :
    (lib : ResponseLib) (request : IsoVpAuthorizationRequest) (private_key : Bytes)
    (response : VpAuthorizationResponse) (mdoc_nonce token : String)
    → IsResponseLib lib request private_key response mdoc_nonce
    → encrypt lib response request mdoc_nonce ≡ ok token
    → decrypt lib token private_key request.nonce ≡ ok (response, mdoc_nonce)
unfolding encrypt decrypt
decrypt-encrypt lib request private_key response mdoc_nonce token laws e =
    let (payload, p, e1) = >>=-ok (ok_or (lib.to_json response) json) _ e in
    let (encrypter, k, e2) =
      >>=-ok (ok_or (lib.encrypter_from_jwk request.encryption_pubkey) jwk_conversion) _ e1 in
    let written = ok_or-ok (lib.to_json response) json p in
    let decoded =
      laws.paired payload token encrypter
        (ok_or-ok (lib.encrypter_from_jwk request.encryption_pubkey) jwk_conversion k)
        (ok_or-ok (lib.encode_with_encrypter payload (header_of lib request mdoc_nonce) encrypter)
          jwe e2) in
    rw
      (
        laws.keyed,
        decoded,
        laws.nonce_read,
        str_eq_self request.nonce,
        laws.mdoc_nonce_read,
        laws.json_read payload written,
      )
      refl

length-map : (docs : List Document) → length (map mapping_of docs) ≡ length docs
length-map [] = refl
length-map (d ∷ ds) = ap suc (length-map ds)

descriptors_lem : (docs : List Document) → verify_descriptors docs (map mapping_of docs) ≡ ok tt
unfolding verify_descriptors
descriptors_lem [] = refl
descriptors_lem (d ∷ ds) = rw (str_eq_self d.doc_type) (descriptors_lem ds)

equal_self : (n : ℕ) → (n == n) ≡ true
equal_self n = ground arith

submission_lem :
    (d : DeviceResponse) (docs : List Document) (request : IsoVpAuthorizationRequest)
    (random_id : String)
    → verify_submission
        (made_response d request random_id docs).presentation_submission
        docs
        request.presentation_definition
      ≡ ok tt
unfolding verify_submission
submission_lem d docs request random_id =
    rw (str_eq_self request.presentation_definition.id, length-map docs, equal_self (length docs))
      (descriptors_lem docs)

-- If the libraries read back what they write, and the keys of the request belong together, then a device
-- response with documents that verifies for the session of the two nonces, and matches what was
-- requested, is accepted from the token that a wallet makes of it for this request.
pub decrypt_and_verify-new_encrypted :
    (lib : ResponseLib) (crypto : Crypto) (d : DeviceResponse) (docs : List Document)
    (request : IsoVpAuthorizationRequest) (private_key : Bytes)
    (random_id mdoc_nonce token : String) (now : ℕ) (attrs : DisclosedAttributes)
    → IsResponseLib lib request private_key (made_response d request random_id docs) mdoc_nonce
    → d.documents ≡ some docs
    → new_encrypted lib d request random_id mdoc_nonce ≡ ok token
    → verify_device_response crypto d none (transcript_of lib request mdoc_nonce) now ≡ ok attrs
    → match_against_response request.items_requests d ≡ ok tt
    → decrypt_and_verify lib crypto token private_key request now ≡ ok attrs
unfolding new_encrypted decrypt_and_verify verify_response
decrypt_and_verify-new_encrypted lib crypto d docs request private_key random_id mdoc_nonce token
      now attrs laws p e v m =
    let (response, r, e1) = >>=-ok (new_response d request random_id) _ e in
    let computed : new_response d request random_id ≡ ok (made_response d request random_id docs) =
      rw p refl in
    let is_made : response ≡ made_response d request random_id docs = cc (computed, r) in
    let made = subst (λ x. encrypt lib x request mdoc_nonce ≡ ok token) is_made e1 in
    rw
      (
        decrypt-encrypt lib request private_key (made_response d request random_id docs) mdoc_nonce
            token laws made,
        v,
        m,
        p,
        submission_lem d docs request random_id,
        same_string_self request.state,
      )
      refl
