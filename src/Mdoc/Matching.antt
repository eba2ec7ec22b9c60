-- ===== src/Mdoc/Matching.antt =====
-- Whether a disclosure has all attributes that were requested: `match_against_response` of
-- mdoc/src/verifier.rs, with the attribute identifiers of mdoc/src/identifiers.rs. An `IndexSet` of
-- identifiers is a list, in which a repeated one stands again.
use nl_wallet.Base.{
  Bool, false, not, ◌&&◌, ◌||◌, Option, none, some, String, str_eq, List, [], ◌∷◌, ◌++◌, map,
  filter, if◌then◌else◌, Exec, ok, err,
}
use nl_wallet.Mdoc.{
  IssuerSignedItem, Document, DeviceResponse, ItemsRequest, AttributeIdentifier, VerificationError,
  missing_attributes,
}

abbrev pub same_identifier : AttributeIdentifier → AttributeIdentifier → Bool
same_identifier a b =
    str_eq a.of_type b.of_type && (str_eq a.namespace b.namespace && str_eq a.attribute b.attribute)

unfoldable pub contains_identifier : AttributeIdentifier → List AttributeIdentifier → Bool
contains_identifier a [] = false
contains_identifier a (b ∷ bs) = same_identifier a b || contains_identifier a bs

abbrev pub identifier : String → String → String → AttributeIdentifier
identifier doc_type namespace attribute = record {
  of_type = doc_type;
  namespace = namespace;
  attribute = attribute;
}

unfoldable pub identifiers_of_spaces :
    String → List (String × List IssuerSignedItem) → List AttributeIdentifier
identifiers_of_spaces doc_type [] = []
identifiers_of_spaces doc_type ((namespace, items) ∷ rest) =
    map (λ item. identifier doc_type namespace item.element_identifier) items
    ++ identifiers_of_spaces doc_type rest

abbrev pub identifiers_of_optional :
    String → Option (List (String × List IssuerSignedItem)) → List AttributeIdentifier
identifiers_of_optional doc_type none = []
identifiers_of_optional doc_type (some spaces) = identifiers_of_spaces doc_type spaces

abbrev pub issuer_signed_attribute_identifiers : Document → List AttributeIdentifier
issuer_signed_attribute_identifiers doc =
    identifiers_of_optional doc.doc_type doc.issuer_signed.name_spaces

unfoldable pub requested_identifiers :
    String → List (String × List (String × Bool)) → List AttributeIdentifier
requested_identifiers doc_type [] = []
requested_identifiers doc_type ((namespace, attrs) ∷ rest) =
    map (λ a. identifier doc_type namespace a.0) attrs ++ requested_identifiers doc_type rest

abbrev pub attribute_identifiers : ItemsRequest → List AttributeIdentifier
attribute_identifiers request =
    requested_identifiers request.requested_type request.requested_spaces

abbrev pub match_against_issuer_signed : ItemsRequest → Document → List AttributeIdentifier
match_against_issuer_signed request doc =
    filter (λ a. not (contains_identifier a (issuer_signed_attribute_identifiers doc)))
      (attribute_identifiers request)

-- `docs.iter().find(…)`: the first document of the type.
unfoldable pub find_document : String → List Document → Option Document
find_document doc_type [] = none
find_document doc_type (d ∷ ds) =
    if str_eq d.doc_type doc_type then some d else find_document doc_type ds

-- `documents.as_ref().and_then(…)`
abbrev pub find_in : Option (List Document) → String → Option Document
find_in none doc_type = none
find_in (some docs) doc_type = find_document doc_type docs

abbrev pub missing_in : ItemsRequest → Option Document → List AttributeIdentifier
missing_in request none = attribute_identifiers request
missing_in request (some doc) = match_against_issuer_signed request doc

unfoldable pub not_found : List ItemsRequest → Option (List Document) → List AttributeIdentifier
not_found [] documents = []
not_found (request ∷ requests) documents =
    missing_in request (find_in documents request.requested_type) ++ not_found requests documents

abbrev pub require_none : List AttributeIdentifier → Exec VerificationError (Unit {0})
require_none [] = ok tt
require_none (a ∷ as') = err (missing_attributes (a ∷ as'))

unfoldable pub match_against_response :
    List ItemsRequest → DeviceResponse → Exec VerificationError (Unit {0})
match_against_response requests response = require_none (not_found requests response.documents)
