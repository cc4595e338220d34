-- ===== src/Sdk/Runs.antt =====
-- sdks/python/barista_app_sdk/runs.py: the models of an App Run, their parsers and printers. Every
-- refusal is an `InvalidRequestError` with the code app_run.invalid; the model keeps the name of the
-- field, or the names that the message lists, without sorting them. A binding or delivery that is
-- no object is refused, whichever exception Python raises there.
use barista_apps.Prelude.{
  String, Bool, false, not, Option, none, some, List, [], ◌∷◌, ◌++◌, map, ◌==◌, text_equality,
  number_equality, if◌then◌else◌, contains, keep, is_empty,
}
use barista_apps.Prelude.Dict.{Dict}
use barista_apps.Prelude.Result.{Result, ok, err, ◌>>=◌, ◌>>◌, guard}
use barista_apps.Sdk.Json.{Json, null, string, object, Members, empty, member, get, unknown}
use barista_apps.Sdk.Names.{codes, is_name, is_kind, is_secret_ref}

pub data Invalid : Type 0 where
  unknown_fields : List String → Invalid
  bad_field : String → Invalid
  undeclared_credentials : List String → Invalid
  undeclared_operation : String → Invalid
  wrong_media_type : Invalid
  undeclared_slots missing_slots : List String → Invalid
  unsupported_kinds : Dict String → Invalid
  bad_input : Invalid

abbrev pub Parsed : Type 0 → Type 0
Parsed = Result Invalid

unfoldable pub require_name : String → Option Json → Parsed String
require_name field (some (string s)) = if is_name s then ok s else err (bad_field field)
require_name field _ = err (bad_field field)

unfoldable pub require_kind : String → Option Json → Parsed String
require_kind field (some (string s)) = if is_kind s then ok s else err (bad_field field)
require_kind field _ = err (bad_field field)

-- A text that is not empty.
unfoldable pub require_text : String → Option Json → Parsed String
require_text field (some (string s)) = if s == "" then err (bad_field field) else ok s
require_text field _ = err (bad_field field)

-- `is not None`, then a condition.
unfoldable pub optional : (Option Json → Parsed String) → Option Json → Parsed (Option String)
optional f none = ok none
optional f (some null) = ok none
optional f (some v) = f (some v) >>= λ s. ok (some s)

-- `value.get(field, {})`, which is an object.
unfoldable pub mapping : String → Option Json → Parsed Members
mapping field none = ok empty
mapping field (some (object ms)) = ok ms
mapping field _ = err (bad_field field)

abbrev pub known_only : List String → Members → Parsed (Unit {0})
known_only allowed ms = guard (is_empty (unknown allowed ms)) (unknown_fields (unknown allowed ms))

pub record RunBinding : Type 0 where
  pub kind : String
  pub uri : String
  pub ref : Option String
  pub credential : Option String
  pub options : Members

pub record DeliveryRequest : Type 0 where
  pub kind : String
  pub target : Option String
  pub credential : Option String
  pub options : Members

unfoldable pub parse_binding : Members → Parsed RunBinding
unfolding unknown get require_kind require_text require_name optional mapping
parse_binding v = do
  known_only ("kind" ∷ "uri" ∷ "ref" ∷ "credential" ∷ "options" ∷ []) v
  kind ← require_kind "kind" (get v "kind")
  uri ← require_text "uri" (get v "uri")
  ref ← optional (require_text "ref") (get v "ref")
  credential ← optional (require_name "credential") (get v "credential")
  options ← mapping "options" (get v "options")
  ok (record { kind = kind; uri = uri; ref = ref; credential = credential; options = options })

unfoldable pub parse_delivery : Members → Parsed DeliveryRequest
unfolding unknown get require_kind require_text require_name optional mapping
parse_delivery v = do
  known_only ("kind" ∷ "target" ∷ "credential" ∷ "options" ∷ []) v
  kind ← require_kind "kind" (get v "kind")
  target ← optional (require_text "target") (get v "target")
  credential ← optional (require_name "credential") (get v "credential")
  options ← mapping "options" (get v "options")
  ok (record { kind = kind; target = target; credential = credential; options = options })

-- A field that is written where there is a value.
abbrev pub with_option : String → Option String → Members → Members
with_option k none ms = ms
with_option k (some s) ms = member k (string s) ms

-- A field that is written where the mapping is not empty.
abbrev pub with_mapping : String → Members → Members → Members
with_mapping k empty rest = rest
with_mapping k (member j v ms) rest = member k (object (member j v ms)) rest

unfoldable pub binding_document : RunBinding → Members
binding_document b = member "kind" (string b.kind) (
    member "uri" (string b.uri) (
      with_option "ref" b.ref
        (with_option "credential" b.credential (with_mapping "options" b.options empty))))

unfoldable pub delivery_document : DeliveryRequest → Members
delivery_document d = member "kind" (string d.kind) (
    with_option "target" d.target
      (with_option "credential" d.credential (with_mapping "options" d.options empty)))

pub record AppRun : Type 0 where
  pub name : String
  pub app : String
  pub operation : String
  pub input_media_type : String
  pub input_value : Json
  pub bindings : Dict RunBinding
  -- by alias, the reference of each secret
  pub secrets : Dict String
  pub deliveries : Dict DeliveryRequest
  pub metadata : Members

-- {_require_name(k, "binding name"): RunBinding.parse(v) for k, v in raw.items()}
unfoldable pub parse_each : {A : Type 0} → (Members → Parsed A) → Members → Parsed (Dict A)
parse_each parse empty = ok []
parse_each parse (member k v ms) = do
  name ← require_name "name" (some (string k))
  doc ← mapping k (some v)
  a ← parse doc
  rest ← parse_each parse ms
  ok ((name, a) ∷ rest)

-- `SecretReference.parse`
unfoldable pub parse_secret : String → Json → Parsed (String × String)
unfolding require_name
parse_secret name (string ref) = do
  alias ← require_name "secret alias" (some (string name))
  if is_secret_ref ref then ok (alias, ref) else err (bad_field alias)
parse_secret name _ = err (bad_field name)

unfoldable pub parse_secrets : Members → Parsed (Dict String)
unfolding parse_secret
parse_secrets empty = ok []
parse_secrets (member k v ms) = do
  secret ← parse_secret k v
  rest ← parse_secrets ms
  ok (secret ∷ rest)

abbrev pub keys_of : {A : Type 0} → Dict A → List String
keys_of = map (λ item. item.0)

-- The credentials that the items name; one that is empty is none.
unfoldable pub credentials : {A : Type 0} → (A → Option String) → Dict A → List String
credentials f [] = []
credentials f ((_, a) ∷ d) =
    let rest = credentials f d in
    elim (f a) [ none ↦ rest | some c ↦ if c == "" then rest else c ∷ rest ]

unfoldable pub missing_credentials :
    Dict RunBinding → Dict DeliveryRequest → Dict String → List String
unfolding credentials
missing_credentials bindings deliveries secrets =
    keep (λ c. not (contains (keys_of secrets) c))
      (credentials (λ b. b.credential) bindings ++ credentials (λ d. d.credential) deliveries)

-- `"/" in media_type`
unfoldable pub is_media_type : String → Bool
is_media_type s = contains (codes s) b'/'

unfoldable pub require_media_type : Option Json → Parsed String
unfolding is_media_type
require_media_type (some (string s)) =
    if is_media_type s then ok s else err (bad_field "run.input.media_type")
require_media_type _ = err (bad_field "run.input.media_type")

unfoldable pub require_value : Option Json → Parsed Json
require_value none = err (bad_field "run.input")
require_value (some v) = ok v

-- The media type and the value of an input, which has no other field.
unfoldable pub parse_input : Option Json → Parsed (String × Json)
unfolding get unknown require_media_type require_value
parse_input (some (object ms)) = do
  guard (is_empty (unknown ("media_type" ∷ "value" ∷ []) ms)) (bad_field "run.input")
  value ← require_value (get ms "value")
  media_type ← require_media_type (get ms "media_type")
  ok (media_type, value)
parse_input _ = err (bad_field "run.input")

abbrev pub is_version : Option Json → Bool
is_version (some (string s)) = s == "v1alpha1"
is_version _ = false

-- The maps of a run whose other fields have been read.
unfoldable pub parse_maps : AppRun → Members → Members → Members → Parsed AppRun
unfolding parse_each parse_binding parse_secrets parse_delivery missing_credentials
parse_maps run raw_bindings raw_secrets raw_deliveries = do
  bindings ← parse_each parse_binding raw_bindings
  secrets ← parse_secrets raw_secrets
  deliveries ← parse_each parse_delivery raw_deliveries
  guard (is_empty (missing_credentials bindings deliveries secrets))
      (undeclared_credentials (missing_credentials bindings deliveries secrets))
  ok (record run { bindings = bindings; secrets = secrets; deliveries = deliveries })

abbrev pub bare_run : String → String → String → String → Json → Members → AppRun
bare_run name app operation media_type value metadata = record {
  name = name;
  app = app;
  operation = operation;
  input_media_type = media_type;
  input_value = value;
  bindings = [];
  secrets = [];
  deliveries = [];
  metadata = metadata;
}

abbrev pub run_fields : List String
run_fields =
    "schema_version" ∷ "name" ∷ "app" ∷ "operation" ∷ "input" ∷ "bindings" ∷ "secrets"
    ∷ "deliveries" ∷ "metadata" ∷ []

unfoldable pub parse_run : Members → Parsed AppRun
unfolding unknown get require_name require_text parse_input mapping parse_maps
parse_run v = do
  known_only run_fields v
  guard (is_version (get v "schema_version")) (bad_field "run.schema_version")
  name ← require_name "run.name" (get v "name")
  operation ← require_name "run.operation" (get v "operation")
  app ← require_text "run.app" (get v "app")
  input ← parse_input (get v "input")
  bindings ← mapping "run.bindings" (get v "bindings")
  secrets ← mapping "run.secrets" (get v "secrets")
  deliveries ← mapping "run.deliveries" (get v "deliveries")
  metadata ← mapping "run.metadata" (get v "metadata")
  parse_maps (bare_run name app operation input.0 input.1 metadata) bindings secrets deliveries

unfoldable pub each_document : {A : Type 0} → (A → Members) → Dict A → Members
each_document f [] = empty
each_document f ((k, a) ∷ d) = member k (object (f a)) (each_document f d)

unfoldable pub secrets_document : Dict String → Members
secrets_document [] = empty
secrets_document ((k, ref) ∷ d) = member k (string ref) (secrets_document d)

unfoldable pub to_document : AppRun → Members
unfolding each_document secrets_document binding_document delivery_document
to_document r = member "schema_version" (string "v1alpha1") (
    member "name" (string r.name) (
      member "app" (string r.app) (
        member "operation" (string r.operation) (
          member "input"
            (object (
              member "media_type" (string r.input_media_type) (member "value" r.input_value empty)))
            (with_mapping "bindings" (each_document binding_document r.bindings) (
              with_mapping "secrets" (secrets_document r.secrets) (
                with_mapping "deliveries" (each_document delivery_document r.deliveries)
                  (with_mapping "metadata" r.metadata empty))))))))
