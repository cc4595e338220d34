-- ===== src/Sdk/Validate.antt =====
-- sdks/python/barista_app_sdk/runs.py: a run against the operation that its app declares. The
-- manifest's operations are those of a manifest that passed its schema; the JSON Schema validator is
-- a parameter, a test of a schema and a test of a value by it.
use barista_apps.Prelude.{
  String, Bool, false, not, ◌&&◌, Option, none, some, List, [], ◌∷◌, ◌==◌, text_equality,
  if◌then◌else◌, contains, keep, map, is_empty,
}
use barista_apps.Prelude.Dict.{Dict, find}
use barista_apps.Prelude.Result.{ok, err, ◌>>=◌, ◌>>◌, guard}
use barista_apps.Sdk.Json.{Json, string}
use barista_apps.Sdk.Runs.{
  undeclared_operation, wrong_media_type, undeclared_slots, missing_slots, unsupported_kinds,
  bad_input, Parsed, require_name, AppRun, keys_of,
}

pub record RunSlot : Type 0 where
  pub kinds : List String
  pub required : Bool

pub record RunOperation : Type 0 where
  pub name : String
  pub lifecycle : String
  pub input_media_type : String
  pub input_schema : Option Json
  pub bindings : Dict RunSlot
  pub outputs : Dict RunSlot
  pub deliveries : Dict RunSlot

unfoldable pub slots : Dict RunSlot → Parsed (Dict RunSlot)
slots [] = ok []
slots ((name, slot) ∷ d) = do
  n ← require_name "name" (some (string name))
  rest ← slots d
  ok ((n, slot) ∷ rest)

-- `RunOperation.from_manifest`, of the manifest's `runs`.
unfoldable pub from_manifest : Dict RunOperation → String → Parsed RunOperation
unfolding slots
from_manifest runs name = elim (find runs name) [
  | none ↦ err (undeclared_operation name)
  | some raw ↦ do
    bindings ← slots raw.bindings
    outputs ← slots raw.outputs
    deliveries ← slots raw.deliveries
    ok (record raw { name = name; bindings = bindings; outputs = outputs; deliveries = deliveries })
]

-- The names of the required slots that have no item.
unfoldable pub missing : List String → Dict RunSlot → List String
missing names [] = []
missing names ((name, slot) ∷ d) =
    let rest = missing names d in
    if slot.required && not (contains names name) then name ∷ rest else rest

abbrev pub supports : Dict RunSlot → String → String → Bool
supports declared name kind = elim (find declared name) [
  | none ↦ false
  | some slot ↦ contains slot.kinds kind
]

-- `_validate_slots`, of the kinds of the items by name.
unfoldable pub validate_slots : Dict String → Dict RunSlot → Parsed (Unit {0})
unfolding missing
validate_slots actual declared =
    let undeclared = keep (λ n. not (contains (keys_of declared) n)) (keys_of actual) in
    let wrong = keep (λ (item : String × String). not (supports declared item.0 item.1)) actual in
    guard (is_empty undeclared) (undeclared_slots undeclared)
    >> (guard (is_empty (missing (keys_of actual) declared))
          (missing_slots (missing (keys_of actual) declared))
        >> guard (is_empty wrong) (unsupported_kinds wrong))

abbrev pub kinds_of : {A : Type 0} → (A → String) → Dict A → Dict String
kinds_of kind = map (λ item. (item.0, kind item.1))

module _ (conforms : Json → Json → Bool) where
  unfoldable pub validate_input : Option Json → Json → Parsed (Unit {0})
  validate_input none v = ok tt
  validate_input (some schema) v = guard (conforms schema v) bad_input

  unfoldable pub validate_run : AppRun → Dict RunOperation → Parsed RunOperation
  unfolding from_manifest validate_slots validate_input
  validate_run run runs = do
    operation ← from_manifest runs run.operation
    guard (run.input_media_type == operation.input_media_type) wrong_media_type
    validate_slots (kinds_of (λ b. b.kind) run.bindings) operation.bindings
    validate_slots (kinds_of (λ d. d.kind) run.deliveries) operation.deliveries
    validate_input operation.input_schema run.input_value
    ok operation
