-- ===== src/Mdoc/Complete.antt =====
-- A verified disclosure that matches has what was requested.
use mathlib.Core.List.{Memᴰ}
use nl_wallet.Base.{
  ℕ, ◌≡◌, inl, inr, refl, sym, ap, subst, ◌∙◌, Bool, true, false, Bool-cases, Option, none, some,
  String, str_eq, eq_iff, Bytes, List, [], ◌∷◌, map, ◌==◌, ok, guard, ok_or, ok_or-ok, >>=-ok,
  find_key, insert_key, find_key-insert_key, arith,
}
use nl_wallet.Mdoc.{
  Entry, Document, DeviceResponse, ItemsRequest, AttributeIdentifier, DocumentDisclosedAttributes,
  DisclosedAttributes, unexpected_status, no_documents, Crypto,
}
use nl_wallet.Mdoc.Verification.{
  entry_of, verify_document, verify_documents, verify_no_errors, verify_device_response,
}
use nl_wallet.Mdoc.Matching.{
  contains_identifier, identifier, issuer_signed_attribute_identifiers, find_document, find_in,
  match_against_response,
}
use nl_wallet.Mdoc.Disclosed.{IsVerified, document_lem}
use nl_wallet.Mdoc.Found.{mem-map, found_lem, all_found, attribute_found, optional-Mem}

-- An attribute stands among the disclosed ones.
abbrev pub Discloses : DocumentDisclosedAttributes → String → String → Type 0
Discloses a namespace name =
    (entries : List Entry) × (e : Entry) × Memᴰ (namespace, entries) a.attributes
    × Memᴰ e entries
    × (e.name ≡ name)

-- No two documents have the same type.
abbrev pub AreDistinct : List Document → Type 0
AreDistinct [] = Unit {0}
AreDistinct (d ∷ ds) = (find_document d.doc_type ds ≡ none) × AreDistinct ds

module _ (crypto : Crypto) (reader : Option Bytes) (transcript : String) (now : ℕ) where
  verified-Discloses :
      (q : AttributeIdentifier) (doc : Document) (a : DocumentDisclosedAttributes)
      → contains_identifier q (issuer_signed_attribute_identifiers doc) ≡ true
      → IsVerified crypto reader transcript now doc a
      → Discloses a q.namespace q.attribute
  verified-Discloses q doc a e v =
      let (items, item, h, m, p) = optional-Mem q doc e in
      (
        map (entry_of crypto) items,
        entry_of crypto item,
        subst (Memᴰ (q.namespace, map (entry_of crypto) items)) (sym v.entries)
            (mem-map (λ s. (s.0, map (entry_of crypto) s.1)) h),
        mem-map (entry_of crypto) m,
        p,
      )

  -- Documents of other types leave what stands under a type.
  pub others_lem :
      (t : String) (docs : List Document) (before after : DisclosedAttributes)
      → find_document t docs ≡ none
      → verify_documents crypto reader transcript now docs before ≡ ok after
      → find_key t after ≡ find_key t before
  unfolding verify_documents find_document
  others_lem t [] before after f e = ap (find_key t) (ground arith)
  others_lem t (d ∷ ds) before after f e =
      let ((u, b), v, e1) = >>=-ok (verify_document crypto d reader transcript now) _ e in
      let (typed, _) = document_lem crypto d reader transcript now u b v in
      let other : str_eq d.doc_type t ≡ false = ground arith in
      let rest : find_document t ds ≡ none = ground arith in
      let written : find_key t (insert_key u b before) ≡ find_key t before =
        find_key-insert_key t u b before ∙ rw (sym typed, other) refl in
      others_lem t ds (insert_key u b before) after rest e1 ∙ written

  -- The only document of a type is the one whose attributes are kept.
  kept_lem :
      (t : String) (doc : Document) (docs : List Document) (before after : DisclosedAttributes)
      → AreDistinct docs
      → find_document t docs ≡ some doc
      → verify_documents crypto reader transcript now docs before ≡ ok after
      → (a : DocumentDisclosedAttributes) × (find_key t after ≡ some a)
        × IsVerified crypto reader transcript now doc a
  unfolding verify_documents find_document
  kept_lem t doc [] before after apart f e = absurd (ground arith)
  kept_lem t doc (d ∷ ds) before after (alone, apart) f e =
      let ((u, b), v, e1) = >>=-ok (verify_document crypto d reader transcript now) _ e in
      let (typed, verified) = document_lem crypto d reader transcript now u b v in
      elim (Bool-cases (str_eq d.doc_type t)) [
        | inr other ↦ kept_lem t doc ds (insert_key u b before) after apart (ground arith) e1
        | inl hit ↦
            let of_type = (eq_iff d.doc_type t).0 hit in
            let is_doc : d ≡ doc = ground arith in
            let written : find_key t (insert_key u b before) ≡ some b =
              find_key-insert_key t u b before ∙ rw (sym typed, hit) refl in
            (
              b,
              others_lem t ds (insert_key u b before) after
                    (subst (λ x. find_document x ds ≡ none) of_type alone) e1
                  ∙ written,
              subst (λ x. IsVerified crypto reader transcript now x b) is_doc verified,
            )
      ]

-- If a device response whose documents have distinct types verifies, and matches the requests, then every
-- requested attribute stands among the disclosed ones, under its document type and namespace.
pub match_against_response-Discloses :
    (crypto : Crypto) (response : DeviceResponse) (reader : Option Bytes) (transcript : String)
    (now : ℕ) (attrs : DisclosedAttributes) (docs : List Document) (requests : List ItemsRequest)
    (r : ItemsRequest) (namespace : String) (names : List (String × Bool)) (name : String × Bool)
    → verify_device_response crypto response reader transcript now ≡ ok attrs
    → match_against_response requests response ≡ ok tt
    → response.documents ≡ some docs
    → AreDistinct docs
    → Memᴰ r requests
    → Memᴰ (namespace, names) r.requested_spaces
    → Memᴰ name names
    → (a : DocumentDisclosedAttributes) × (find_key r.requested_type attrs ≡ some a)
      × Discloses a namespace name.0
unfolding verify_device_response
match_against_response-Discloses crypto response reader transcript now attrs docs requests r
      namespace names name e matched given apart asked h m =
    let (_, _, e1) = >>=-ok (verify_no_errors crypto response.document_errors) _ e in
    let (_, _, e2) =
      >>=-ok (guard (response.status == 0) (unexpected_status response.status)) _ e1 in
    let (ds, d, v) = >>=-ok (ok_or response.documents no_documents) _ e2 in
    let present = ok_or-ok response.documents no_documents d in
    let is_docs : ds ≡ docs = cc (given, present) in
    let nothing_missing =
      found_lem r requests response.documents (all_found requests response matched) asked in
    let (doc, found, contained) =
      attribute_found r namespace names name (find_in response.documents r.requested_type)
        nothing_missing h m in
    let found_doc : find_document r.requested_type ds ≡ some doc =
      subst (λ o. find_in o r.requested_type ≡ some doc) present found in
    let (a, kept, verified) =
      kept_lem crypto reader transcript now r.requested_type doc ds [] attrs
        (subst AreDistinct (sym is_docs) apart) found_doc v in
    (
      a,
      kept,
      verified-Discloses crypto reader transcript now (identifier r.requested_type namespace name.0)
          doc a contained verified,
    )
