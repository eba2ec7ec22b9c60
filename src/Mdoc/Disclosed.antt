-- ===== src/Mdoc/Disclosed.antt =====
-- What a disclosure that verifies is known to hold.
use mathlib.Core.List.{Memᴰ}
use mathlib.Core.List.Memᴰ.{head, tail}
use nl_wallet.Base.{
  ℕ, ◌≤◌, ◌≡◌, ◌⊎◌, inl, inr, refl, sym, ap, subst, ◌∙◌, not, Bool-cases, Option, none, some,
  String, str_eq, eq_iff, Bytes, bytes_eq_iff, List, [], ◌∷◌, map, ltb, ok, guard, guard-ok, ok_or,
  ok_or-ok, map_err, map_err-ok, >>=-ok, find_key, insert_key, find_key-insert_key, arith,
}
use nl_wallet.Mdoc.Keys.{to_verifying_key}
use nl_wallet.Mdoc.{
  Entry, IssuerSignedItem, ValidityInfo, MobileSecurityObject, IssuerSigned, Document,
  DocumentDisclosedAttributes, DisclosedAttributes, parsing_failed, not_yet_valid, expired, valid,
  wrong_doc_type, missing_namespace, missing_digest_id, cose, cbor, validity_error, Crypto,
}
use nl_wallet.Mdoc.Verification.{
  find_digest, verify_not_expired, verify_is_valid_at, verify_attr_digest, entry_of,
  verify_attrs_in_namespace, verify_namespaces, verify_optional, verify_issuer_signed,
  verify_device_auth, verify_document, verify_documents,
}

-- The namespaces of a document, none if the field is absent.
abbrev pub spaces_of : IssuerSigned → List (String × List IssuerSignedItem)
spaces_of signed = elim (signed.name_spaces) [ none ↦ [] | some spaces ↦ spaces ]

abbrev pub entries_of : Crypto → List (String × List IssuerSignedItem) → List (String × List Entry)
entries_of crypto = map (λ s. (s.0, map (entry_of crypto) s.1))

-- The digest of an item stands in the security object, under its namespace and number.
pub record HasDigest (crypto : Crypto) (mso : MobileSecurityObject) (namespace : String)
    (item : IssuerSignedItem) : Type 0 where
  pub digests : List (ℕ × Bytes)
  pub digest : Bytes
  pub in_namespace : find_key namespace mso.value_digests ≡ some digests
  pub under_id : find_digest item.digest_id digests ≡ some digest
  pub computed : crypto.cbor_digest item ≡ some digest

pub record IsValidAt (crypto : Crypto) (info : ValidityInfo) (now : ℕ) : Type 0 where
  pub from : ℕ
  pub until : ℕ
  pub from_parsed : crypto.parse_date info.valid_from ≡ some from
  pub until_parsed : crypto.parse_date info.valid_until ≡ some until
  pub started : from ≤ now
  pub not_over : now ≤ until

-- A document whose attributes are those of `attrs`: the issuer has signed their digests for its type, at
-- a time within the validity, and the holder has authenticated it with the key that the issuer signed.
pub record IsVerified (crypto : Crypto) (reader : Option Bytes) (transcript : String) (now : ℕ)
    (doc : Document) (attrs : DocumentDisclosedAttributes) : Type 0 where
  pub mso : MobileSecurityObject
  pub issued : crypto.verify_issuer doc.issuer_signed.issuer_auth now ≡ some mso
  pub typed : doc.doc_type ≡ mso.mso_doc_type
  pub is_valid : IsValidAt crypto mso.validity_info now
  pub digested :
      (namespace : String) (items : List IssuerSignedItem) (item : IssuerSignedItem)
      → Memᴰ (namespace, items) (spaces_of doc.issuer_signed)
      → Memᴰ item items
      → HasDigest crypto mso namespace item
  pub entries : attrs.attributes ≡ entries_of crypto (spaces_of doc.issuer_signed)
  pub transcript_encoded : Bytes
  pub payload : Bytes
  pub device_key : Bytes
  pub encoded : crypto.transcript_bytes transcript ≡ some transcript_encoded
  pub challenged : crypto.device_authentication_bytes doc.doc_type transcript ≡ some payload
  pub keyed : to_verifying_key crypto mso.device_key ≡ ok device_key
  pub authenticated :
      verify_device_auth crypto doc.device_auth reader device_key transcript_encoded payload ≡ ok tt

module _ (crypto : Crypto) where
  valid_at :
      (info : ValidityInfo) (now : ℕ)
      → verify_is_valid_at crypto info now valid ≡ ok tt
      → IsValidAt crypto info now
  unfolding verify_is_valid_at verify_not_expired
  valid_at info now e =
      let (from, f, e1) = >>=-ok (ok_or (crypto.parse_date info.valid_from) parsing_failed) _ e in
      let (_, s, e2) = >>=-ok (guard (not (ltb now from)) (not_yet_valid info.valid_from)) _ e1 in
      let (until, u, n) = >>=-ok (ok_or (crypto.parse_date info.valid_until) parsing_failed) _ e2 in
      record {
        from = from;
        until = until;
        from_parsed = ok_or-ok (crypto.parse_date info.valid_from) parsing_failed f;
        until_parsed = ok_or-ok (crypto.parse_date info.valid_until) parsing_failed u;
        started = ground (arith, guard-ok (not (ltb now from)) (not_yet_valid info.valid_from) s);
        not_over = ground (arith, guard-ok (not (ltb until now)) (expired info.valid_from) n);
      }

  digest_lem :
      (mso : MobileSecurityObject) (namespace : String) (item : IssuerSignedItem)
      → verify_attr_digest crypto mso namespace item ≡ ok tt
      → HasDigest crypto mso namespace item
  unfolding verify_attr_digest
  digest_lem mso namespace item e =
      let (digests, d, e1) =
        >>=-ok (ok_or (find_key namespace mso.value_digests) (missing_namespace namespace)) _ e in
      let (digest, g, e2) =
        >>=-ok (ok_or (find_digest item.digest_id digests) (missing_digest_id item.digest_id)) _
          e1 in
      let (computed, c, s) = >>=-ok (ok_or (crypto.cbor_digest item) cbor) _ e2 in
      let same = (bytes_eq_iff digest computed).0 (guard-ok _ _ s) in
      record {
        digests = digests;
        digest = digest;
        in_namespace = ok_or-ok (find_key namespace mso.value_digests) _ d;
        under_id = ok_or-ok (find_digest item.digest_id digests) _ g;
        computed = ok_or-ok (crypto.cbor_digest item) cbor c ∙ ap some (sym same);
      }

  namespace_lem :
      (mso : MobileSecurityObject) (namespace : String) (items : List IssuerSignedItem)
      (entries : List Entry)
      → verify_attrs_in_namespace crypto mso namespace items ≡ ok entries
      → (entries ≡ map (entry_of crypto) items)
        × ((item : IssuerSignedItem) → Memᴰ item items → HasDigest crypto mso namespace item)
  unfolding verify_attrs_in_namespace
  namespace_lem mso namespace [] entries e = (ground arith, λ item h. elim h [ ])
  namespace_lem mso namespace (x ∷ xs) entries e =
      let (_, d, e1) = >>=-ok (verify_attr_digest crypto mso namespace x) _ e in
      let (others, o, e2) = >>=-ok (verify_attrs_in_namespace crypto mso namespace xs) _ e1 in
      let (same, rest) = namespace_lem mso namespace xs others o in
      let here = digest_lem mso namespace x d in
      let is_list : entry_of crypto x ∷ others ≡ entries = ground arith in
      (sym is_list ∙ ap (λ l. entry_of crypto x ∷ l) same, λ item h. at item here rest h)
    where
      at :
          (item : IssuerSignedItem)
          → HasDigest crypto mso namespace x
          → ((i : IssuerSignedItem) → Memᴰ i xs → HasDigest crypto mso namespace i)
          → Memᴰ item (x ∷ xs)
          → HasDigest crypto mso namespace item
      at item here rest (head p) = subst (HasDigest crypto mso namespace) (sym p) here
      at item here rest (tail m) = rest item m

  -- All items of all namespaces.
  abbrev pub AllDigested : MobileSecurityObject → List (String × List IssuerSignedItem) → Type 0
  AllDigested mso spaces =
      (namespace : String) (items : List IssuerSignedItem) (item : IssuerSignedItem)
      → Memᴰ (namespace, items) spaces
      → Memᴰ item items
      → HasDigest crypto mso namespace item

  spaces_lem :
      (mso : MobileSecurityObject) (spaces : List (String × List IssuerSignedItem))
      (attrs : List (String × List Entry))
      → verify_namespaces crypto mso spaces ≡ ok attrs
      → (attrs ≡ entries_of crypto spaces) × AllDigested mso spaces
  unfolding verify_namespaces
  spaces_lem mso [] attrs e = (ground arith, λ namespace items item h. elim h [ ])
  spaces_lem mso ((ns, xs) ∷ rest) attrs e =
      let (entries, v, e1) = >>=-ok (verify_attrs_in_namespace crypto mso ns xs) _ e in
      let (others, o, e2) = >>=-ok (verify_namespaces crypto mso rest) _ e1 in
      let (same, here) = namespace_lem mso ns xs entries v in
      let (same_rest, there) = spaces_lem mso rest others o in
      let is_list : (ns, entries) ∷ others ≡ attrs = ground arith in
      (
        sym is_list
            ∙ (ap (λ l. (ns, l) ∷ others) same
                ∙ ap (λ l. (ns, map (entry_of crypto) xs) ∷ l) same_rest),
        λ namespace items item h. at namespace items item here there h,
      )
    where
      at :
          (namespace : String) (items : List IssuerSignedItem) (item : IssuerSignedItem)
          → ((i : IssuerSignedItem) → Memᴰ i xs → HasDigest crypto mso ns i)
          → AllDigested mso rest
          → Memᴰ (namespace, items) ((ns, xs) ∷ rest)
          → Memᴰ item items
          → HasDigest crypto mso namespace item
      at namespace items item here there (head p) m =
          subst (λ n. HasDigest crypto mso n item) (sym (ap (λ s. s.0) p))
            (here item (subst (Memᴰ item) (ap (λ s. s.1) p) m))
      at namespace items item here there (tail h) m = there namespace items item h m

  optional_lem :
      (mso : MobileSecurityObject) (signed : IssuerSigned) (attrs : List (String × List Entry))
      → verify_optional crypto mso signed.name_spaces ≡ ok attrs
      → (attrs ≡ entries_of crypto (spaces_of signed)) × AllDigested mso (spaces_of signed)
  optional_lem mso signed attrs e = by_case signed.name_spaces e
    where
      by_case :
          (o : Option (List (String × List IssuerSignedItem)))
          → verify_optional crypto mso o ≡ ok attrs
          → let spaces : List (String × List IssuerSignedItem) = elim o [
            | none ↦ []
            | some s ↦ s
          ] in
            (attrs ≡ entries_of crypto spaces) × AllDigested mso spaces
      by_case none h = (ground arith, λ namespace items item m. elim m [ ])
      by_case (some spaces) h = spaces_lem mso spaces attrs h

  pub issuer_signed_lem :
      (signed : IssuerSigned) (now : ℕ) (attrs : DocumentDisclosedAttributes)
      (mso : MobileSecurityObject)
      → verify_issuer_signed crypto signed valid now ≡ ok (attrs, mso)
      → (crypto.verify_issuer signed.issuer_auth now ≡ some mso)
        × IsValidAt crypto mso.validity_info now
        × (attrs.attributes ≡ entries_of crypto (spaces_of signed))
        × AllDigested mso (spaces_of signed)
  unfolding verify_issuer_signed
  issuer_signed_lem signed now attrs mso e =
      let (m, i, e1) = >>=-ok (ok_or (crypto.verify_issuer signed.issuer_auth now) cose) _ e in
      let (_, v, e2) =
        >>=-ok (map_err validity_error (verify_is_valid_at crypto m.validity_info now valid)) _
          e1 in
      let (found, a, e3) = >>=-ok (verify_optional crypto m signed.name_spaces) _ e2 in
      let (names, _, e4) = >>=-ok (ok_or (crypto.common_names signed.issuer_auth) cose) _ e3 in
      let (same, digested) = optional_lem m signed found a in
      let is_mso : m ≡ mso = ground arith in
      let is_found : attrs.attributes ≡ found = ground arith in
      let valid_then =
        valid_at m.validity_info now
          (map_err-ok validity_error (verify_is_valid_at crypto m.validity_info now valid) v) in
      (
        ok_or-ok (crypto.verify_issuer signed.issuer_auth now) cose i ∙ ap some is_mso,
        subst (λ x. IsValidAt crypto x.validity_info now) is_mso valid_then,
        is_found ∙ same,
        subst (λ x. AllDigested x (spaces_of signed)) is_mso digested,
      )

  -- A document that verifies, under the type of its security object.
  pub document_lem :
      (doc : Document) (reader : Option Bytes) (transcript : String) (now : ℕ) (t : String)
      (attrs : DocumentDisclosedAttributes)
      → verify_document crypto doc reader transcript now ≡ ok (t, attrs)
      → (doc.doc_type ≡ t) × IsVerified crypto reader transcript now doc attrs
  unfolding verify_document
  document_lem doc reader transcript now t attrs e =
      let ((found, mso), i, e1) =
        >>=-ok (verify_issuer_signed crypto doc.issuer_signed valid now) _ e in
      let (_, g, e2) =
        >>=-ok
          (guard (str_eq doc.doc_type mso.mso_doc_type)
            (wrong_doc_type doc.doc_type mso.mso_doc_type))
          _ e1 in
      let (encoded, c, e3) = >>=-ok (ok_or (crypto.transcript_bytes transcript) cbor) _ e2 in
      let (payload, p, e4) =
        >>=-ok (ok_or (crypto.device_authentication_bytes doc.doc_type transcript) cbor) _ e3 in
      let (key, k, e5) = >>=-ok (to_verifying_key crypto mso.device_key) _ e4 in
      let (_, a, e6) =
        >>=-ok (verify_device_auth crypto doc.device_auth reader key encoded payload) _ e5 in
      let (issued, is_valid, entries, digested) =
        issuer_signed_lem doc.issuer_signed now found mso i in
      let typed = (eq_iff doc.doc_type mso.mso_doc_type).0 (guard-ok _ _ g) in
      let is_type : mso.mso_doc_type ≡ t = ground arith in
      let is_found : found ≡ attrs = ground arith in
      (
        typed ∙ is_type,
        subst (IsVerified crypto reader transcript now doc) is_found (record {
          mso = mso;
          issued = issued;
          typed = typed;
          is_valid = is_valid;
          digested = digested;
          entries = entries;
          transcript_encoded = encoded;
          payload = payload;
          device_key = key;
          encoded = ok_or-ok (crypto.transcript_bytes transcript) cbor c;
          challenged = ok_or-ok (crypto.device_authentication_bytes doc.doc_type transcript) cbor p;
          keyed = k;
          authenticated = a;
        }),
      )

  -- What the loop leaves under a type: what some document verified to, or what was there before.
  pub documents_lem :
      (reader : Option Bytes) (transcript : String) (now : ℕ) (docs : List Document)
      (before after : DisclosedAttributes) (t : String) (a : DocumentDisclosedAttributes)
      → verify_documents crypto reader transcript now docs before ≡ ok after
      → find_key t after ≡ some a
      → ((doc : Document) × Memᴰ doc docs
          × (verify_document crypto doc reader transcript now ≡ ok (t, a)))
        ⊎ (find_key t before ≡ some a)
  unfolding verify_documents
  documents_lem reader transcript now [] before after t a e f =
      let same : before ≡ after = ground arith in
      inr (subst (λ m. find_key t m ≡ some a) (sym same) f)
  documents_lem reader transcript now (d ∷ ds) before after t a e f =
      let ((u, b), v, e1) = >>=-ok (verify_document crypto d reader transcript now) _ e in
      elim (documents_lem reader transcript now ds (insert_key u b before) after t a e1 f) [
        | inl (doc, m, w) ↦ inl (doc, tail m, w)
        | inr g ↦ elim (Bool-cases (str_eq u t)) [
          | inr other ↦ inr (sym (find_key-insert_key t u b before ∙ rw other refl) ∙ g)
          | inl hit ↦
              let same_value : b ≡ a = cc (find_key-insert_key t u b before, g, hit) in
              inl (d, head refl, v ∙ cc ((eq_iff u t).0 hit, same_value))
        ]
      ]
