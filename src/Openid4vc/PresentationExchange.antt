-- ===== src/Openid4vc/PresentationExchange.antt =====
-- What a verifier asks for and how a wallet says where it is answered: openid4vc/src/presentation_exchange.rs,
-- with the formats of openid4vp.rs.
-- The regular expression of the field paths is the parameter `captures`. `IndexSet<FormatAlg>` is a list.
-- `RoundTrip` shows that a definition is read as the requests it was made of.
pub mod RoundTrip
use Prim.Native.String.{◌++◌ as append}
use nl_wallet.Base.{
  ℕ, Bool, not, Option, some, String, str_eq, List, [], ◌∷◌, ◌++◌, map, is_empty, length, ◌==◌,
  Exec, ok, err, guard, ok_or, ◌>>=◌, ◌>>◌, find_key, insert_key, none,
}
use nl_wallet.Mdoc.{Document, ItemsRequest}
use nl_wallet.Openid4vc.Issuer.{Format}

pub data FormatAlg : Type 0 where
  es256 : FormatAlg

-- `VpFormat::MsoMdoc`, the only one.
pub record VpFormat : Type 0 where
  pub alg : List FormatAlg

pub data LimitDisclosure : Type 0 where
  required preferred : LimitDisclosure

pub record Field : Type 0 where
  pub paths : List String
  pub intent_to_retain : Bool

pub record Constraints : Type 0 where
  pub fields : List Field
  pub limit_disclosure : LimitDisclosure

pub record InputDescriptor : Type 0 where
  pub id : String
  pub format : VpFormat
  pub constraints : Constraints

pub record PresentationDefinition : Type 0 where
  pub id : String
  pub input_descriptors : List InputDescriptor

pub data PdConversionError : Type 0 where
  too_many_paths unsupported_json_path_expression unsupported_algs : PdConversionError

-- `format!("$['{}']['{}']", …)`
abbrev pub field_path : String → String → String
field_path namespace attr = append "$['" (append namespace (append "']['" (append attr "']")))

abbrev pub es256_format : VpFormat
es256_format = record { alg = es256 ∷ [] }

abbrev pub field_of : String → String × Bool → Field
field_of namespace (attr, intent_to_retain) = record {
  paths = field_path namespace attr ∷ [];
  intent_to_retain = intent_to_retain;
}

-- The `flat_map` over the namespaces.
unfoldable pub fields_of : List (String × List (String × Bool)) → List Field
fields_of [] = []
fields_of ((namespace, attrs) ∷ rest) = map (field_of namespace) attrs ++ fields_of rest

abbrev pub descriptor_of : ItemsRequest → InputDescriptor
descriptor_of request = record {
  id = request.requested_type;
  format = es256_format;
  constraints = record { fields = fields_of request.requested_spaces; limit_disclosure = required };
}

-- `From<&ItemsRequests>`, with the random ID.
abbrev pub definition_of : String → List ItemsRequest → PresentationDefinition
definition_of random_id requests = record {
  id = random_id;
  input_descriptors = map descriptor_of requests;
}

abbrev pub or_default : Option (List (String × Bool)) → List (String × Bool)
or_default none = []
or_default (some attrs) = attrs

abbrev pub insert_field :
    String
    → String
    → Bool
    → List (String × List (String × Bool))
    → List (String × List (String × Bool))
insert_field namespace attr retain spaces =
    insert_key namespace (insert_key attr retain (or_default (find_key namespace spaces))) spaces

module _ (captures : String → Option (String × String)) where
  abbrev pub parse_path : List String → Exec PdConversionError (String × String)
  parse_path [] = err too_many_paths
  parse_path (path ∷ []) = ok_or (captures path) unsupported_json_path_expression
  parse_path (path ∷ other ∷ paths) = err too_many_paths

  -- The loop, with the namespaces so far.
  unfoldable pub spaces_of_fields :
      List Field
      → List (String × List (String × Bool))
      → Exec PdConversionError (List (String × List (String × Bool)))
  spaces_of_fields [] spaces = ok spaces
  spaces_of_fields (f ∷ fs) spaces = do
    (namespace, attr) ← parse_path f.paths
    spaces_of_fields fs (insert_field namespace attr f.intent_to_retain spaces)

  unfoldable pub items_request_of : InputDescriptor → Exec PdConversionError ItemsRequest
  items_request_of descriptor = do
    guard (not (is_empty descriptor.format.alg)) unsupported_algs
    spaces ← spaces_of_fields descriptor.constraints.fields []
    ok (record { requested_type = descriptor.id; requested_spaces = spaces; request_info = none })

  -- `TryFrom<&PresentationDefinition>`
  unfoldable pub items_requests_of :
      List InputDescriptor → Exec PdConversionError (List ItemsRequest)
  items_requests_of [] = ok []
  items_requests_of (d ∷ ds) = do
    request ← items_request_of d
    requests ← items_requests_of ds
    ok (request ∷ requests)

pub record InputDescriptorMappingObject : Type 0 where
  pub mapped_id : String
  pub mapped_format : Format
  pub path : String

pub record PresentationSubmission : Type 0 where
  pub submission_id : String
  pub definition_id : String
  pub descriptor_map : List InputDescriptorMappingObject

-- Each with what was expected and found.
pub data PsError : Type 0 where
  unexpected_descriptor_count : ℕ → ℕ → PsError
  unexpected_submission_id unexpected_input_descriptor_id : String → String → PsError
  unexpected_input_descriptor_path : String → PsError

-- The loop over the pairs, which ends with the shorter list.
unfoldable pub verify_descriptors :
    List Document → List InputDescriptorMappingObject → Exec PsError (Unit {0})
verify_descriptors [] descriptors = ok tt
verify_descriptors (doc ∷ docs) [] = ok tt
verify_descriptors (doc ∷ docs) (d ∷ descriptors) = do
  guard (str_eq d.path "$") (unexpected_input_descriptor_path d.path)
  guard (str_eq d.mapped_id doc.doc_type) (unexpected_input_descriptor_id doc.doc_type d.mapped_id)
  verify_descriptors docs descriptors

unfoldable pub verify_submission :
    PresentationSubmission → List Document → PresentationDefinition → Exec PsError (Unit {0})
verify_submission submission documents definition = do
  guard (str_eq submission.definition_id definition.id)
      (unexpected_submission_id definition.id submission.definition_id)
  guard (length submission.descriptor_map == length documents)
      (unexpected_descriptor_count (length documents) (length submission.descriptor_map))
  verify_descriptors documents submission.descriptor_map
