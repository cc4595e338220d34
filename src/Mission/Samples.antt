-- ===== src/Mission/Samples.antt =====
-- Missions on which the checks run.
use barista_apps.Prelude.{String, true, none, some, List, [], ◌∷◌, ◌≡◌, refl, ◌↔◌, Bool}
use barista_apps.Prelude.Result.{ok, err}
use barista_apps.Mission.Paths.{normpath, looks_like_a_path}
use barista_apps.Mission.Graph.{search_fuel, search_roots, search_from, search, scan}
use barista_apps.Mission.{
  Task, Document, load, of_document, has_repetition, ids, enforce_budget, or_default, enforce_graph,
  check_known, each, check_acyclic, of_search, deps_of, by_id, check_data_flow, check_consumed,
  produces_name, enforce_gates, arguments_of, check_argument, fixed_paths, dependency_cycle,
  marks_own_work,
}
use barista_apps.Mission.Reported.{NamesCycle, check_acyclic-NamesCycle}
use barista_apps.Mission.Runnable.{IsRunnable, load-eq-ok}

abbrev task : String → List String → Task
task id depends_on = record {
  id = id;
  command = some ("node" ∷ "build.js" ∷ []);
  prompt = none;
  check = none;
  collect = true;
  env = [];
  workdir = none;
  depends_on = depends_on;
  produces = [];
  consumes = [];
  files = [];
}

abbrev document : List Task → Document
document tasks = record {
  name = "demo";
  app = "worker";
  tasks = tasks;
  concurrency = none;
  strict_gates = some true;
  task_timeout_s = none;
  max_attempts = none;
  deadline_s = none;
  budget = none;
  permissions = none;
  notify_url = none;
}

run : Unit {0}
unfolding load normpath looks_like_a_path has_repetition ids enforce_budget of_document or_default
    enforce_graph check_known each check_acyclic of_search search_roots search_from search
    search_fuel scan deps_of by_id check_data_flow check_consumed produces_name enforce_gates
    arguments_of check_argument fixed_paths
run = tt

abbrev always : Document → Bool
always d = true

-- A specification, its implementation, and a review whose check reads what it received.
abbrev staged : Document
staged = document (
    record (task "review" ("build" ∷ "spec" ∷ [])) {
      consumes = ("spec", "/work/spec.md") ∷ [];
      check = some ("grep" ∷ "-q" ∷ "/work/./spec.md" ∷ []);
    }
    ∷ task "build" ("spec" ∷ [])
    ∷ record (task "spec" []) { produces = ("spec", "/out/spec.md") ∷ [] }
    ∷ [])

staged_loads : load always staged ≡ ok (of_document staged)
unfolding run
staged_loads = refl

cycle_refused :
    load always (document (task "a" ("b" ∷ []) ∷ task "b" ("c" ∷ []) ∷ task "c" ("b" ∷ []) ∷ []))
    ≡ err (dependency_cycle ("b" ∷ "c" ∷ "b" ∷ []))
unfolding run
cycle_refused = refl

forged_gate_refused :
    load always (document (record (task "a" []) { check = some ("node" ∷ "/work/t.js" ∷ []) } ∷ []))
    ≡ err (marks_own_work "a" "/work/t.js")
unfolding run
forged_gate_refused = refl

load-eq-ok_example :
    (load always staged ≡ ok (of_document staged))
    ↔ (always staged ≡ true)
      × (of_document staged ≡ of_document staged)
      × IsRunnable (of_document staged)
load-eq-ok_example = load-eq-ok always staged (of_document staged)

norm_examples :
    (normpath "/work/./t.js" ≡ "/work/t.js")
    × (normpath "a//b/../c" ≡ "a/c")
    × (normpath "/.." ≡ "/")
    × (normpath "" ≡ ".")
    × (normpath "//x/" ≡ "//x")
unfolding normpath
norm_examples = (refl, refl, refl, refl, refl)

abbrev looping : List Task
looping = task "a" ("b" ∷ []) ∷ task "b" ("c" ∷ []) ∷ task "c" ("b" ∷ []) ∷ []

looping_refused : check_acyclic looping ≡ err (dependency_cycle ("b" ∷ "c" ∷ "b" ∷ []))
unfolding run
looping_refused = refl

check_acyclic-NamesCycle_example : NamesCycle looping (dependency_cycle ("b" ∷ "c" ∷ "b" ∷ []))
check_acyclic-NamesCycle_example =
    check_acyclic-NamesCycle looping (dependency_cycle ("b" ∷ "c" ∷ "b" ∷ [])) looping_refused
