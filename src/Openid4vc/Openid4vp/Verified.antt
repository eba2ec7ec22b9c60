-- ===== src/Openid4vc/Openid4vp/Verified.antt =====
-- What an authorization request and a response that verify are known to be.
use nl_wallet.Base.{
  ◌≡◌, refl, ap, true, Option, none, some, String, eq_iff, Bytes, List, [], ◌∷◌, ok,
}
use nl_wallet.Mdoc.{Document, DeviceResponse}
use nl_wallet.Mdoc.Matching.{match_against_response}
use nl_wallet.Openid4vc.Dpop.{same_string}
use nl_wallet.Openid4vc.PresentationExchange.{InputDescriptorMappingObject}
use nl_wallet.Openid4vc.Openid4vp.{
  IsoVpAuthorizationRequest, VpAuthorizationResponse, JweHeader, ResponseLib,
}

pub same_string-eq : (a b : Option String) → same_string a b ≡ true → a ≡ b
same_string-eq none none e = refl
same_string-eq (some a) (some b) e = ap some ((eq_iff a b).0 e)
same_string-eq none (some b) e = cc
same_string-eq (some a) none e = cc

-- The descriptors name the types of the documents, in their order.
abbrev pub AreDescribed : List Document → List InputDescriptorMappingObject → Type 0
AreDescribed [] [] = Unit {0}
AreDescribed [] (d ∷ ds) = ⊥
AreDescribed (doc ∷ docs) [] = ⊥
AreDescribed (doc ∷ docs) (d ∷ ds) =
    (d.path ≡ "$") × (d.mapped_id ≡ doc.doc_type) × AreDescribed docs ds

-- A response that answers a request: made for its nonce and its state, with the wallet's nonce `mdoc_nonce`
-- in the header's party information, and with one presentation that has the requested attributes, whose
-- documents the submission describes.
pub record Answers (lib : ResponseLib) (token : String) (private_key : Bytes)
    (request : IsoVpAuthorizationRequest) (response : VpAuthorizationResponse)
    (device_response : DeviceResponse) (mdoc_nonce : String) : Type 0 where
  pub decrypter : Bytes
  pub payload : String
  pub header : JweHeader
  pub apv : Bytes
  pub keyed : lib.decrypter_from_jwk private_key ≡ some decrypter
  pub decoded : lib.decode_with_decrypter token decrypter ≡ some (payload, header)
  pub has_apv : header.agreement_partyvinfo ≡ some apv
  pub for_nonce : lib.from_utf8 apv ≡ some request.nonce
  pub apu : Bytes
  pub has_apu : header.agreement_partyuinfo ≡ some apu
  pub for_wallet : lib.from_utf8 apu ≡ some mdoc_nonce
  pub parsed : lib.from_json payload ≡ some response
  pub presented : response.vp_tokens ≡ device_response ∷ []
  pub for_state : response.state ≡ request.state
  pub for_definition :
      response.presentation_submission.definition_id ≡ request.presentation_definition.id
  pub documents : List Document
  pub has_documents : device_response.documents ≡ some documents
  pub described : AreDescribed documents response.presentation_submission.descriptor_map
  pub complete : match_against_response request.items_requests device_response ≡ ok tt
