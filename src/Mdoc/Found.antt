-- ===== src/Mdoc/Found.antt =====
-- Where requested attributes are found.
use mathlib.Core.List.{Memᴰ}
use mathlib.Core.List.Memᴰ.{head, tail}
use nl_wallet.Base.{
  ◌≡◌, ◌⊎◌, inl, inr, refl, sym, ap, subst, ◌∙◌, Bool, true, not, Bool-cases, Option, none, some,
  String, eq_iff, List, [], ◌∷◌, ◌++◌, map, filter, ok, arith,
}
use nl_wallet.Mdoc.{IssuerSignedItem, Document, DeviceResponse, ItemsRequest, AttributeIdentifier}
use nl_wallet.Mdoc.Matching.{
  same_identifier, contains_identifier, identifier, identifiers_of_spaces, identifiers_of_optional,
  issuer_signed_attribute_identifiers, requested_identifiers, attribute_identifiers, find_in,
  missing_in, not_found, require_none, match_against_response,
}
use nl_wallet.Mdoc.Disclosed.{spaces_of}

mem-append_left {ℓ} :
    {A : Type ℓ} {a : A} {xs : List A} (ys : List A) → Memᴰ a xs → Memᴰ a (xs ++ ys)
mem-append_left ys (head p) = head p
mem-append_left ys (tail m) = tail (mem-append_left ys m)

mem-append_right {ℓ} :
    {A : Type ℓ} {a : A} (xs : List A) {ys : List A} → Memᴰ a ys → Memᴰ a (xs ++ ys)
mem-append_right [] m = m
mem-append_right (x ∷ xs) m = tail (mem-append_right xs m)

pub mem-map {ℓ κ} :
    {A : Type ℓ} {B : Type κ} (f : A → B) {a : A} {xs : List A} → Memᴰ a xs → Memᴰ (f a) (map f xs)
mem-map f (head p) = head (ap f p)
mem-map f (tail m) = tail (mem-map f m)

append_eq_nil {ℓ} : {A : Type ℓ} (xs ys : List A) → xs ++ ys ≡ [] → (xs ≡ []) × (ys ≡ [])
append_eq_nil [] ys e = (refl, e)
append_eq_nil (x ∷ xs) ys e = cc

filter_eq_nil {ℓ} :
    {A : Type ℓ} (p : A → Bool) (a : A) (xs : List A)
    → filter (λ x. not (p x)) xs ≡ []
    → Memᴰ a xs
    → p a ≡ true
filter_eq_nil p a [] e m = elim m [ ]
filter_eq_nil p a (x ∷ xs) e (head q) = elim (Bool-cases (p x)) [
  | inl t ↦ ap p q ∙ t
  | inr f ↦ absurd (ground (arith))
]
filter_eq_nil p a (x ∷ xs) e (tail m) = elim (Bool-cases (p x)) [
  | inl t ↦ filter_eq_nil p a xs (ground arith) m
  | inr f ↦ absurd (ground (arith))
]

requested-Mem :
    (t : String) (spaces : List (String × List (String × Bool))) (namespace : String)
    (attrs : List (String × Bool)) (a : String × Bool)
    → Memᴰ (namespace, attrs) spaces
    → Memᴰ a attrs
    → Memᴰ (identifier t namespace a.0) (requested_identifiers t spaces)
unfolding requested_identifiers
requested-Mem t [] namespace attrs a h m = elim h [ ]
requested-Mem t (s ∷ spaces) namespace attrs a (head p) m =
    mem-append_left (requested_identifiers t spaces) (
      subst (λ x. Memᴰ (identifier t namespace a.0) (map (λ b. identifier t x.0 b.0) x.1)) p
        (mem-map (λ b. identifier t namespace b.0) m))
requested-Mem t (s ∷ spaces) namespace attrs a (tail h) m =
    mem-append_right (map (λ b. identifier t s.0 b.0) s.1)
      (requested-Mem t spaces namespace attrs a h m)

-- What is found in one document stands in its namespaces.
contains-Mem :
    (q : AttributeIdentifier) (t ns : String) (items : List IssuerSignedItem)
    (rest : List AttributeIdentifier)
    → contains_identifier q (map (λ i. identifier t ns i.element_identifier) items ++ rest) ≡ true
    → ((item : IssuerSignedItem) × Memᴰ item items
        × (q.namespace ≡ ns)
        × (q.attribute ≡ item.element_identifier))
      ⊎ (contains_identifier q rest ≡ true)
unfolding contains_identifier
contains-Mem q t ns [] rest e = inr e
contains-Mem q t ns (i ∷ items) rest e =
    elim (Bool-cases (same_identifier q (identifier t ns i.element_identifier))) [
      | inl s ↦
          let in_space = eq_iff q.namespace ns in
          let in_attr = eq_iff q.attribute i.element_identifier in
          inl (i, head refl, ground (arith, in_space), ground (arith, in_attr))
      | inr f ↦ elim (contains-Mem q t ns items rest (ground (arith))) [
        | inl (item, m, p, r) ↦ inl (item, tail m, p, r)
        | inr g ↦ inr g
      ]
    ]

spaces-Mem :
    (q : AttributeIdentifier) (t : String) (spaces : List (String × List IssuerSignedItem))
    → contains_identifier q (identifiers_of_spaces t spaces) ≡ true
    → (items : List IssuerSignedItem) × (item : IssuerSignedItem) × Memᴰ (q.namespace, items) spaces
      × Memᴰ item items
      × (item.element_identifier ≡ q.attribute)
unfolding contains_identifier identifiers_of_spaces
spaces-Mem q t [] e = absurd (ground arith)
spaces-Mem q t ((ns, items) ∷ rest) e =
    elim (contains-Mem q t ns items (identifiers_of_spaces t rest) e) [
      | inl (item, m, p, r) ↦ (items, item, head (ap (λ n. (n, items)) p), m, sym r)
      | inr g ↦ let (xs, item, h, m, r) = spaces-Mem q t rest g in (xs, item, tail h, m, r)
    ]

pub found_lem :
    (r : ItemsRequest) (requests : List ItemsRequest) (documents : Option (List Document))
    → not_found requests documents ≡ []
    → Memᴰ r requests
    → missing_in r (find_in documents r.requested_type) ≡ []
unfolding not_found
found_lem r [] documents e m = elim m [ ]
found_lem r (q ∷ requests) documents e (head p) =
    subst (λ x. missing_in x (find_in documents x.requested_type) ≡ []) (sym p)
      (append_eq_nil (missing_in q (find_in documents q.requested_type))
        (not_found requests documents) e).0
found_lem r (q ∷ requests) documents e (tail m) =
    found_lem r requests documents
      (append_eq_nil (missing_in q (find_in documents q.requested_type))
        (not_found requests documents) e).1
      m

pub all_found :
    (requests : List ItemsRequest) (response : DeviceResponse)
    → match_against_response requests response ≡ ok tt
    → not_found requests response.documents ≡ []
unfolding match_against_response
all_found requests response e = by_case (not_found requests response.documents) e
  where
    by_case : (l : List AttributeIdentifier) → require_none l ≡ ok tt → l ≡ []
    by_case [] h = refl
    by_case (a ∷ as') h = cc

-- A requested attribute stands in the document that is found for it.
pub attribute_found :
    (r : ItemsRequest) (namespace : String) (names : List (String × Bool)) (name : String × Bool)
    (found : Option Document)
    → missing_in r found ≡ []
    → Memᴰ (namespace, names) r.requested_spaces
    → Memᴰ name names
    → (doc : Document) × (found ≡ some doc)
      × (contains_identifier
            (identifier r.requested_type namespace name.0)
            (issuer_signed_attribute_identifiers doc)
          ≡ true)
attribute_found r namespace names name none e h m =
    elim (subst (Memᴰ (identifier r.requested_type namespace name.0)) e
      (requested-Mem r.requested_type r.requested_spaces namespace names name h m)) [ ]
attribute_found r namespace names name (some doc) e h m = (
  doc,
  refl,
  filter_eq_nil (λ a. contains_identifier a (issuer_signed_attribute_identifiers doc))
      (identifier r.requested_type namespace name.0) (attribute_identifiers r) e
      (requested-Mem r.requested_type r.requested_spaces namespace names name h m),
)

pub optional-Mem :
    (q : AttributeIdentifier) (doc : Document)
    → contains_identifier q (issuer_signed_attribute_identifiers doc) ≡ true
    → (items : List IssuerSignedItem) × (item : IssuerSignedItem) × Memᴰ
        (q.namespace, items)
        (spaces_of doc.issuer_signed)
      × Memᴰ item items
      × (item.element_identifier ≡ q.attribute)
unfolding identifiers_of_spaces
optional-Mem q doc e = by_case doc.issuer_signed.name_spaces e
  where
    by_case :
        (o : Option (List (String × List IssuerSignedItem)))
        → contains_identifier q (identifiers_of_optional doc.doc_type o) ≡ true
        → let spaces : List (String × List IssuerSignedItem) = elim o [ none ↦ [] | some s ↦ s ] in
          (items : List IssuerSignedItem) × (item : IssuerSignedItem) × Memᴰ
            (q.namespace, items)
            spaces
          × Memᴰ item items
          × (item.element_identifier ≡ q.attribute)
    by_case none h = spaces-Mem q doc.doc_type [] h
    by_case (some spaces) h = spaces-Mem q doc.doc_type spaces h
