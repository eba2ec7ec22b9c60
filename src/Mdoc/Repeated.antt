-- ===== src/Mdoc/Repeated.antt =====
-- A disclosure with two documents of one type.
use nl_wallet.Base.{
  ap, false, Bool-cases, inl, inr, arith, ℕ, ◌≡◌, refl, sym, subst, ◌∙◌, true, Option, none, some,
  String, str_eq, eq_iff, Bytes, List, [], ◌∷◌, ◌++◌, ◌==◌, ok, guard, ok_or, ok_or-ok, >>=-ok,
  find_key, insert_key, find_key-insert_key,
}
use nl_wallet.Mdoc.{
  Document, DeviceResponse, ItemsRequest, DocumentDisclosedAttributes, DisclosedAttributes,
  unexpected_status, no_documents, Crypto,
}
use nl_wallet.Mdoc.Verification.{
  verify_document, verify_documents, verify_no_errors, verify_device_response,
}
use nl_wallet.Mdoc.Matching.{find_document, not_found, require_none, match_against_response}
use nl_wallet.Mdoc.Disclosed.{IsVerified, document_lem}
use nl_wallet.Mdoc.Complete.{others_lem}

module _ (crypto : Crypto) (reader : Option Bytes) (transcript : String) (now : ℕ) where
  last_lem :
      (d : Document) (earlier later : List Document) (before after : DisclosedAttributes)
      → find_document d.doc_type later ≡ none
      → verify_documents crypto reader transcript now (earlier ++ (d ∷ later)) before ≡ ok after
      → (a : DocumentDisclosedAttributes) × (find_key d.doc_type after ≡ some a)
        × IsVerified crypto reader transcript now d a
  unfolding verify_documents
  last_lem d [] later before after alone e =
      let ((u, b), v, e1) = >>=-ok (verify_document crypto d reader transcript now) _ e in
      let (typed, verified) = document_lem crypto d reader transcript now u b v in
      let hit : str_eq d.doc_type d.doc_type ≡ true = (eq_iff d.doc_type d.doc_type).1 refl in
      let written : find_key d.doc_type (insert_key u b before) ≡ some b =
        find_key-insert_key d.doc_type u b before ∙ rw (sym typed, hit) refl in
      (
        b,
        others_lem crypto reader transcript now d.doc_type later (insert_key u b before) after alone
              e1
            ∙ written,
        verified,
      )
  last_lem d (x ∷ earlier) later before after alone e =
      let ((u, b), v, e1) = >>=-ok (verify_document crypto x reader transcript now) _ e in
      last_lem d earlier later (insert_key u b before) after alone e1

find-append :
    (t : String) (xs ys : List Document) (d : Document)
    → find_document t xs ≡ some d
    → find_document t (xs ++ ys) ≡ some d
unfolding find_document
find-append t [] ys d e = cc
find-append t (x ∷ xs) ys d e = ground (arith, find-append t xs ys d)

find-other :
    (t : String) (d : Document) (xs ys : List Document)
    → str_eq d.doc_type t ≡ false
    → find_document t (xs ++ (d ∷ ys)) ≡ find_document t (xs ++ ys)
unfolding find_document
find-other t d [] ys other = rw other refl
find-other t d (x ∷ xs) ys other = rw (find-other t d xs ys other) refl

-- A document after another one of its type is not found.
find-repeated :
    (t : String) (d first : Document) (xs ys : List Document)
    → find_document d.doc_type xs ≡ some first
    → find_document t (xs ++ (d ∷ ys)) ≡ find_document t (xs ++ ys)
find-repeated t d first xs ys e = elim (Bool-cases (str_eq d.doc_type t)) [
  | inr other ↦ find-other t d xs ys other
  | inl same ↦
      let hit : find_document t xs ≡ some first =
        subst (λ u. find_document u xs ≡ some first) ((eq_iff d.doc_type t).0 same) e in
      find-append t xs (d ∷ ys) first hit ∙ sym (find-append t xs ys first hit)
]

not_found-repeated :
    (requests : List ItemsRequest) (d first : Document) (xs ys : List Document)
    → find_document d.doc_type xs ≡ some first
    → not_found requests (some (xs ++ (d ∷ ys))) ≡ not_found requests (some (xs ++ ys))
unfolding not_found
not_found-repeated [] d first xs ys e = refl
not_found-repeated (r ∷ rs) d first xs ys e =
    rw (find-repeated r.requested_type d first xs ys e, not_found-repeated rs d first xs ys e) refl

-- If a device response verifies whose documents hold one that comes after another of its type, and before
-- no other of it, then the response matches any requests just as it does without this document, while the
-- attributes disclosed under the type are those of this document.
pub verify_device_response-repeated :
    (crypto : Crypto) (response : DeviceResponse) (reader : Option Bytes) (transcript : String)
    (now : ℕ) (attrs : DisclosedAttributes) (first last : Document) (earlier later : List Document)
    → verify_device_response crypto response reader transcript now ≡ ok attrs
    → response.documents ≡ some (earlier ++ (last ∷ later))
    → find_document last.doc_type earlier ≡ some first
    → find_document last.doc_type later ≡ none
    → ((requests : List ItemsRequest)
        → match_against_response requests response
          ≡ match_against_response requests
              (record response { documents = some (earlier ++ later) }))
      × ((a : DocumentDisclosedAttributes) × (find_key last.doc_type attrs ≡ some a)
          × IsVerified crypto reader transcript now last a)
unfolding verify_device_response match_against_response
verify_device_response-repeated crypto response reader transcript now attrs first last earlier later
      e given before alone =
    let (_, _, e1) = >>=-ok (verify_no_errors crypto response.document_errors) _ e in
    let (_, _, e2) =
      >>=-ok (guard (response.status == 0) (unexpected_status response.status)) _ e1 in
    let (ds, d, v) = >>=-ok (ok_or response.documents no_documents) _ e2 in
    let is_docs : ds ≡ earlier ++ (last ∷ later) =
      cc (given, ok_or-ok response.documents no_documents d) in
    let verified =
      subst (λ l. verify_documents crypto reader transcript now l [] ≡ ok attrs) is_docs v in
    (
      λ requests. ap require_none (
          ap (not_found requests) given
          ∙ not_found-repeated requests last first earlier later before),
      last_lem crypto reader transcript now last earlier later [] attrs alone verified,
    )
