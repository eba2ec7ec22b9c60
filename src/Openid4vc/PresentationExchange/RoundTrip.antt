-- ===== src/Openid4vc/PresentationExchange/RoundTrip.antt =====
-- A presentation definition is read as the requests that it was made of.
use nl_wallet.Base.{
  ◌≡◌, ◌≢◌, refl, sym, ap, ◌∙◌, Bool, Option, none, some, String, List, [], ◌∷◌, ◌++◌, map, ok,
  find_key, insert_key, insert_key-new, insert_key-last, find_key-last, AreNew,
}
use nl_wallet.Mdoc.{ItemsRequest}
use nl_wallet.Openid4vc.PresentationExchange.{
  Field, field_path, field_of, fields_of, descriptor_of, spaces_of_fields, items_request_of,
  items_requests_of,
}

append_assoc {ℓ} :
    {A : Type ℓ} (xs : List A) (y : A) (zs : List A) → (xs ++ (y ∷ [])) ++ zs ≡ xs ++ (y ∷ zs)
append_assoc [] y zs = refl
append_assoc (x ∷ xs) y zs = ap (λ l. x ∷ l) (append_assoc xs y zs)

append_nil {ℓ} : {A : Type ℓ} (xs : List A) → xs ++ [] ≡ xs
append_nil [] = refl
append_nil (x ∷ xs) = ap (λ l. x ∷ l) (append_nil xs)

module _ (captures : String → Option (String × String)) where
  -- The pattern reads the paths of the attributes.
  abbrev pub AreRead : String → List (String × Bool) → Type 0
  AreRead namespace [] = Unit {0}
  AreRead namespace (a ∷ attrs) =
      (captures (field_path namespace a.0) ≡ some (namespace, a.0)) × AreRead namespace attrs

  -- Namespaces with distinct names, after those that stand before them, each with attributes of distinct
  -- names, at least one, which the pattern reads.
  abbrev pub AreSpaces :
      List (String × List (String × Bool)) → List (String × List (String × Bool)) → Type 0
  AreSpaces before [] = Unit {0}
  AreSpaces before ((namespace, attrs) ∷ rest) =
      (find_key namespace before ≡ none)
      × (attrs ≢ [])
      × AreNew [] attrs
      × AreRead namespace attrs
      × AreSpaces (before ++ ((namespace, attrs) ∷ [])) rest

  -- The other attributes of a namespace.
  attrs_lem :
      (namespace : String) (before : List (String × List (String × Bool)))
      (done attrs : List (String × Bool)) (fields : List Field)
      → find_key namespace before ≡ none
      → AreNew done attrs
      → AreRead namespace attrs
      → spaces_of_fields captures
          (map (field_of namespace) attrs ++ fields)
          (before ++ ((namespace, done) ∷ []))
        ≡ spaces_of_fields captures fields (before ++ ((namespace, done ++ attrs) ∷ []))
  unfolding spaces_of_fields
  attrs_lem namespace before done [] fields free new read =
      ap (λ l. spaces_of_fields captures fields (before ++ ((namespace, l) ∷ [])))
        (sym (append_nil done))
  attrs_lem namespace before done ((k, b) ∷ attrs) fields free (new, others) (read, others_read) =
      let rest =
        attrs_lem namespace before (done ++ ((k, b) ∷ [])) attrs fields free others others_read in
      let inserted = insert_key-last namespace (done ++ ((k, b) ∷ [])) done before free in
      rw (read, find_key-last namespace done before free, insert_key-new k b done new, inserted)
        (rest
          ∙ ap (λ l. spaces_of_fields captures fields (before ++ ((namespace, l) ∷ [])))
              (append_assoc done (k, b) attrs))

  space_lem :
      (namespace : String) (before : List (String × List (String × Bool)))
      (attrs : List (String × Bool)) (fields : List Field)
      → find_key namespace before ≡ none
      → attrs ≢ []
      → AreNew [] attrs
      → AreRead namespace attrs
      → spaces_of_fields captures (map (field_of namespace) attrs ++ fields) before
        ≡ spaces_of_fields captures fields (before ++ ((namespace, attrs) ∷ []))
  unfolding spaces_of_fields insert_key
  space_lem namespace before [] fields free filled new read = absurd (filled refl)
  space_lem namespace before ((k, b) ∷ attrs) fields free filled (_, others) (read, others_read) =
      rw (read, free, insert_key-new namespace ((k, b) ∷ []) before free)
        (attrs_lem namespace before ((k, b) ∷ []) attrs fields free others others_read)

  spaces_lem :
      (before spaces : List (String × List (String × Bool)))
      → AreSpaces before spaces
      → spaces_of_fields captures (fields_of spaces) before ≡ ok (before ++ spaces)
  unfolding spaces_of_fields fields_of
  spaces_lem before [] holds = ap ok (sym (append_nil before))
  spaces_lem before ((namespace, attrs) ∷ rest) (free, filled, new, read, holds) =
      space_lem namespace before attrs (fields_of rest) free filled new read
      ∙ spaces_lem (before ++ ((namespace, attrs) ∷ [])) rest holds
      ∙ ap ok (append_assoc before (namespace, attrs) rest)

  -- Requests without request info whose namespaces are such.
  abbrev pub AreRequests : List ItemsRequest → Type 0
  AreRequests [] = Unit {0}
  AreRequests (r ∷ rs) = AreSpaces [] r.requested_spaces × (r.request_info ≡ none) × AreRequests rs

  -- The presentation definition that is made of requests without request info, whose namespaces and attributes have distinct
  -- names, which are read by the pattern, is converted back to these requests, in their order.
  pub items_requests_of-definition :
      (requests : List ItemsRequest)
      → AreRequests requests
      → items_requests_of captures (map descriptor_of requests) ≡ ok requests
  unfolding items_requests_of items_request_of
  items_requests_of-definition [] holds = refl
  items_requests_of-definition (r ∷ rs) (spaces, plain, holds) =
      rw (← plain, spaces_lem [] r.requested_spaces spaces, items_requests_of-definition rs holds)
        refl
