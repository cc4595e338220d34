-- ===== src/Factory/Plan.antt =====
-- apps/factory/barista_app_factory/product_program.py: `FeaturePlan.parse_bytes`. UTF-8 and JSON, the
-- canonical bytes and the search for secrets are parameters.
pub mod Reachable
pub mod Fuel
pub mod Schedule
pub mod Accepted
pub mod Parsed
mod Samples
use barista_apps.Prelude.{
  ℕ, zero, suc, String, Bool, true, false, not, ◌&&◌, ◌||◌, Option, none, some, List, [], ◌∷◌, ◌==◌,
  text_equality, if◌then◌else◌, contains, all, any, map, is_empty, length, leb, eqb,
}
use barista_apps.Prelude.Dict.{Dict, find}
use barista_apps.Prelude.Result.{Result, ok, err, ◌>>=◌, ◌>>◌, guard}
use barista_apps.Prelude.Text.{is_space}
use barista_apps.Sdk.Json.{
  Json, null, boolean, number, string, array, object, Items, nil, item, Members, get, unknown,
}
use barista_apps.Sdk.Names.{codes, matches_name}

-- The refusals, by what they say.
pub data PlanError : Type 0 where
  size json fields schema identity entry_fields entry dependency cycle not_canonical secret :
      PlanError
  -- a node that the graph does not have, and a search without fuel
  key_error out_of_fuel : PlanError

pub record PlannedFeature : Type 0 where
  pub id : String
  pub title : String
  pub summary : String
  pub acceptance_criteria : List String
  pub dependencies : List String

pub record FeaturePlan : Type 0 where
  pub program : String
  pub approved_commit : String
  pub features : List PlannedFeature

abbrev pub present : Members → String → Bool
present ms k = elim (get ms k) [ none ↦ false | some v ↦ true ]

-- set(value) == names
unfoldable pub exactly : List String → Members → Bool
unfolding get unknown
exactly names ms = is_empty (unknown names ms) && all (present ms) names

-- `_FEATURE_ID`
unfoldable pub is_feature_id : String → Bool
unfolding codes matches_name
is_feature_id s = matches_name (codes s) && leb (length (codes s)) 40

abbrev pub is_hex : ℕ → Bool
is_hex c = (leb b'0' c && leb c b'9') || (leb b'a' c && leb c b'f')

-- `_SHA`
unfoldable pub is_sha : String → Bool
unfolding codes
is_sha s = all is_hex (codes s) && eqb (length (codes s)) 40

-- A text that `strip` does not empty, of a length.
unfoldable pub is_text : ℕ → String → Bool
unfolding codes is_space
is_text n s = any (λ c. not (is_space c)) (codes s) && leb (length (codes s)) n

abbrev pub is_program : String → Bool
is_program s = not (s == "") && leb (length (codes s)) 160

unfoldable pub string_where : PlanError → (String → Bool) → Option Json → Result PlanError String
string_where e p (some (string s)) = if p s then ok s else err e
string_where e p _ = err e

unfoldable pub strings : PlanError → (String → Bool) → Items → Result PlanError (List String)
unfolding string_where
strings e p nil = ok []
strings e p (item v vs) = do s ← string_where e p (some v); rest ← strings e p vs; ok (s ∷ rest)

unfoldable pub strings_where :
    PlanError → (String → Bool) → Option Json → Result PlanError (List String)
unfolding strings
strings_where e p (some (array vs)) = strings e p vs
strings_where e p _ = err e

-- len(set(xs)) == len(xs)
unfoldable pub has_no_repetition : List String → Bool
has_no_repetition [] = true
has_no_repetition (x ∷ xs) = not (contains xs x) && has_no_repetition xs

abbrev pub entry_fields_of : List String
entry_fields_of = "id" ∷ "title" ∷ "summary" ∷ "acceptance_criteria" ∷ "dependencies" ∷ []

-- One entry, after those of the identities.
unfoldable pub parse_feature : List String → Members → Result PlanError PlannedFeature
unfolding exactly get string_where strings_where is_feature_id is_text has_no_repetition
parse_feature identities ms = do
  guard (exactly entry_fields_of ms) entry_fields
  id ← string_where entry is_feature_id (get ms "id")
  guard (not (contains identities id)) entry
  title ← string_where entry (is_text 200) (get ms "title")
  summary ← string_where entry (is_text 4000) (get ms "summary")
  criteria ← strings_where entry (is_text 1000) (get ms "acceptance_criteria")
  guard (leb 1 (length criteria) && leb (length criteria) 12) entry
  dependencies ← strings_where entry is_feature_id (get ms "dependencies")
  guard (leb (length dependencies) 15 && has_no_repetition dependencies) entry
  ok (record {
    id = id;
    title = title;
    summary = summary;
    acceptance_criteria = criteria;
    dependencies = dependencies;
  })

abbrev pub entry_object : Json → Result PlanError Members
entry_object (object ms) = ok ms
entry_object _ = err entry_fields

unfoldable pub parse_features : List String → Items → Result PlanError (List PlannedFeature)
unfolding parse_feature
parse_features identities nil = ok []
parse_features identities (item v vs) = do
  ms ← entry_object v
  feature ← parse_feature identities ms
  rest ← parse_features (feature.id ∷ identities) vs
  ok (feature ∷ rest)

abbrev pub Graph : Type 0
Graph = Dict (List String)

abbrev pub graph_of : List PlannedFeature → Graph
graph_of = map (λ f. (f.id, f.dependencies))

abbrev pub nodes : Graph → List String
nodes = map (λ entry. entry.0)

abbrev pub Visit : Type 0
Visit = List String → String → Result PlanError (List String)

-- The nodes in their order, each with the nodes that were visited before it.
unfoldable pub visit_each : Visit → List String → List String → Result PlanError (List String)
visit_each visit visited [] = ok visited
visit_each visit visited (n ∷ ns) = visit visited n >>= λ after. visit_each visit after ns

abbrev pub entered : String → Result PlanError (List String) → Result PlanError (List String)
entered n r = r >>= λ visited. ok (n ∷ visited)

-- `visit`: the nodes that are being visited and those that were; the last to be left comes first.
unfoldable pub visit : ℕ → Graph → List String → Visit
unfolding find visit_each
visit zero graph visiting visited n = err out_of_fuel
visit (suc fuel) graph visiting visited n = elim (contains visiting n) [
  | true ↦ err cycle
  | false ↦ elim (contains visited n) [
    | true ↦ ok visited
    | false ↦ elim (find graph n) [
      | none ↦ err key_error
      | some dependencies ↦
          entered n (visit_each (visit fuel graph (n ∷ visiting)) visited dependencies)
    ]
  ]
]

-- The path of a search has no node twice, so one more than the nodes is enough fuel.
unfoldable pub visited_all : Graph → Result PlanError (List String)
unfolding visit visit_each
visited_all graph = visit_each (visit (suc (length (nodes graph))) graph []) [] (nodes graph)

-- Each dependency is a feature, and not the feature itself.
abbrev pub knows : List String → PlannedFeature → Bool
knows identities f = all (λ d. contains identities d && not (d == f.id)) f.dependencies

unfoldable pub check_graph : List PlannedFeature → Result PlanError (Unit {0})
unfolding visited_all
check_graph features = do
  guard (all (knows (map (λ f. f.id) features)) features) dependency
  visited ← visited_all (graph_of features)
  ok tt

abbrev pub count_items : Items → ℕ
count_items nil = 0
count_items (item v vs) = suc (count_items vs)

-- A list of one to sixteen values.
unfoldable pub values_of : Option Json → Result PlanError Items
values_of (some (array vs)) =
    if leb 1 (count_items vs) && leb (count_items vs) 16 then ok vs else err identity
values_of _ = err identity

abbrev pub is_version : Option Json → Bool
is_version (some (string s)) = s == "v1alpha1"
is_version _ = false

abbrev pub plan_object : Option Json → Result PlanError Members
plan_object none = err json
plan_object (some (object ms)) = ok ms
plan_object (some _) = err fields

abbrev pub plan_fields : List String
plan_fields = "schema_version" ∷ "program" ∷ "approved_commit" ∷ "features" ∷ []

unfoldable pub parse_document : Members → Result PlanError FeaturePlan
unfolding exactly get string_where is_sha values_of parse_features check_graph
parse_document ms = do
  guard (exactly plan_fields ms) fields
  guard (is_version (get ms "schema_version")) schema
  program ← string_where identity is_program (get ms "program")
  commit ← string_where identity is_sha (get ms "approved_commit")
  values ← values_of (get ms "features")
  features ← parse_features [] values
  check_graph features
  ok (record { program = program; approved_commit = commit; features = features })

abbrev pub same_bytes : List ℕ → List ℕ → Bool
same_bytes [] [] = true
same_bytes [] (y ∷ ys) = false
same_bytes (x ∷ xs) [] = false
same_bytes (x ∷ xs) (y ∷ ys) = eqb x y && same_bytes xs ys

module _ (loads : List ℕ → Option Json) (canonical_bytes : Members → List ℕ)
    (has_secret : List ℕ → Bool) where
  unfoldable pub parse_bytes : List ℕ → Result PlanError FeaturePlan
  unfolding parse_document
  parse_bytes raw = do
    guard (not (is_empty raw) && leb (length raw) 65536) size
    document ← plan_object (loads raw)
    plan ← parse_document document
    guard (same_bytes raw (canonical_bytes document)) not_canonical
    guard (not (has_secret raw)) secret
    ok plan
