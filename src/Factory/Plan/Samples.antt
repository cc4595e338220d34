-- ===== src/Factory/Plan/Samples.antt =====
-- Feature plans at concrete inputs.
use barista_apps.Prelude.{
  ℕ, String, Bool, false, Option, some, List, [], ◌∷◌, ◌≡◌, ◌≢◌, refl, ◌↔◌, ◌≤◌, length, Subset,
  text_equality,
}
use barista_apps.Prelude.Dict.{find}
use barista_apps.Prelude.Text.{is_space}
use barista_apps.Prelude.Result.{ok, err}
use barista_apps.Sdk.Json.{
  Json, string, array, object, nil, item, Members, empty, member, get, unknown,
}
use barista_apps.Sdk.Names.{codes, matches_name, name_tail}
use barista_apps.Factory.Plan.{
  out_of_fuel, cycle, FeaturePlan, Graph, nodes, visit, visit_each, visited_all, parse_bytes,
  parse_document, exactly, string_where, strings, strings_where, parse_feature, parse_features,
  is_feature_id, is_text, is_sha, has_no_repetition, check_graph, values_of,
}
use barista_apps.Factory.Plan.Reachable.{IsOrder}
use barista_apps.Factory.Plan.Schedule.{visited_all-eq-ok}
use barista_apps.Factory.Plan.Parsed.{IsPlan, parse_bytes-IsPlan}

abbrev diamond : Graph
diamond =
    ("top", "left" ∷ "right" ∷ [])
    ∷ ("left", "base" ∷ [])
    ∷ ("right", "base" ∷ [])
    ∷ ("base", [])
    ∷ []

visited_all-eq-ok_example :
    (((after : List String) × (visited_all diamond ≡ ok after))
      ↔ ((order : List String) × IsOrder diamond order × Subset (nodes diamond) order))
    × (visited_all diamond ≢ err out_of_fuel)
visited_all-eq-ok_example = visited_all-eq-ok diamond

diamond_order : visited_all diamond ≡ ok ("top" ∷ "right" ∷ "left" ∷ "base" ∷ [])
unfolding visited_all visit visit_each find
diamond_order = refl

ring_refused : visited_all (("a", "b" ∷ []) ∷ ("b", "a" ∷ []) ∷ []) ≡ err cycle
unfolding visited_all visit visit_each find
ring_refused = refl

abbrev commit : String
commit = "0123456789abcdef0123456789abcdef01234567"

abbrev entry : String → Json → Json
entry id dependencies = object (
    member "id" (string id) (
      member "title" (string "Title") (
        member "summary" (string "Summary") (
          member "acceptance_criteria" (array (item (string "It runs") nil))
            (member "dependencies" dependencies empty)))))

abbrev document : Members
document = member "schema_version" (string "v1alpha1") (
    member "program" (string "p1") (
      member "approved_commit" (string commit) (
        member "features"
          (array (
            item (entry "f2" (array (item (string "f1") nil))) (item (entry "f1" (array nil)) nil)))
          empty)))

abbrev plan : FeaturePlan
plan = record {
  program = "p1";
  approved_commit = commit;
  features =
      record {
        id = "f2";
        title = "Title";
        summary = "Summary";
        acceptance_criteria = "It runs" ∷ [];
        dependencies = "f1" ∷ [];
      }
      ∷ record {
        id = "f1";
        title = "Title";
        summary = "Summary";
        acceptance_criteria = "It runs" ∷ [];
        dependencies = [];
      }
      ∷ [];
}

abbrev raw : List ℕ
raw = b'{' ∷ b'}' ∷ []

abbrev sample_loads : List ℕ → Option Json
sample_loads bytes = some (object document)

abbrev sample_canonical : Members → List ℕ
sample_canonical ms = b'{' ∷ b'}' ∷ []

abbrev no_secret : List ℕ → Bool
no_secret bytes = false

plan_parsed : parse_bytes sample_loads sample_canonical no_secret raw ≡ ok plan
unfolding parse_bytes parse_document exactly get unknown string_where strings strings_where
    parse_feature parse_features is_feature_id is_text is_sha has_no_repetition check_graph
    values_of visited_all visit visit_each find codes matches_name name_tail is_space
plan_parsed = refl

parse_bytes-IsPlan_example : IsPlan plan × (length raw ≤ 65536) × (no_secret raw ≡ false)
parse_bytes-IsPlan_example =
    parse_bytes-IsPlan sample_loads sample_canonical no_secret raw plan plan_parsed
