-- ===== src/Demo/Deployments.antt =====
-- integrations/github-factory-demo/barista_github_factory_demo/store.py: the requests for a
-- deployment, and the scenarios of the demo.

use barista_apps.Prelude.{
  ℕ, String, Bool, true, ◌&&◌, ◌||◌, Option, none, some, [], ◌∷◌, ◌++◌, ◌==◌, text_equality,
  number_equality, if◌then◌else◌, any, keep, length,
}
use barista_apps.Prelude.Result.{ok, err}
use barista_apps.Prelude.Action.{pure, raise, ◌>>◌, assure}
use barista_apps.Prelude.Tables.{fetch, update}
use barista_apps.Prelude.Text.{one_line}
use barista_apps.Demo.Rows.{Deployment, Scenario, EventContent}
use barista_apps.Demo.Store.{
  Store, key_error, value_error, integrity_error, type_error, Run, modify, expected,
  record_program_event,
}
use barista_apps.Demo.Programs.{event, link}

abbrev pub is_request : String → Deployment → Bool
is_request rid d = d.request_id == rid

abbrev pub runs : String → Deployment → Bool
runs rid d = d.request_id == rid && d.state == "running"

abbrev pub new_deployment : ℕ → String → String → Deployment
new_deployment now rid pid = record {
  request_id = rid;
  program_id = pid;
  state = "running";
  result = none;
  error = none;
  attempts = 1;
  created_at = now;
  updated_at = now;
}

-- A request that is known is claimed again while it runs.
abbrev pub claimed : ℕ → String → String → Option Deployment → Run Bool
claimed now rid pid none s =
    (ok true, record s { deployments = s.deployments ++ new_deployment now rid pid ∷ [] })
claimed now rid pid (some d) s =
    if d.program_id == pid then (ok (d.state == "running"), s) else (err value_error, s)

unfoldable pub claim_deployment : ℕ → String → String → Run Bool
unfolding fetch
claim_deployment now rid pid s = claimed now rid pid (fetch (is_request rid) s.deployments) s

-- What a result of a deployment says: its JSON text, and what the event names.
pub record Deployed : Type 0 where
  pub text : String
  pub endpoint : String
  pub deployment_id : String
  pub session_name : String

abbrev pub deployed : Deployed → EventContent
deployed result =
    event "service.deployed" "Accepted product deployed"
      (some "The source-side runner independently verified the public endpoint.") "succeeded"
      (link "endpoint" "Open application" result.endpoint)
      (("deployment_id", result.deployment_id) ∷ ("session_name", result.session_name) ∷ [])

unfoldable pub ended : ℕ → String → Deployed → Store → Store
unfolding update
ended now rid result s = record s {
  deployments =
      update (runs rid)
        (λ d. record d {
          state = "succeeded";
          result = some result.text;
          error = none;
          updated_at = now;
        })
        s.deployments;
}

abbrev pub completed : ℕ → String → Deployed → Option Deployment → Run (Unit {0})
completed now rid result none = raise key_error
completed now rid result (some d) =
    modify (ended now rid result)
    >> record_program_event now d.program_id "product-deployed" (deployed result) (some now)

unfoldable pub complete_deployment : ℕ → String → Deployed → Run (Unit {0})
unfolding fetch ended record_program_event
complete_deployment now rid result s =
    completed now rid result (fetch (is_request rid) s.deployments) s

unfoldable pub fail_deployment : ℕ → String → String → Store → Store
unfolding update one_line
fail_deployment now rid message s = record s {
  deployments =
      update (runs rid)
        (λ d. record d { state = "failed"; error = some (one_line 1000 message); updated_at = now })
        s.deployments;
}

unfoldable pub deployment_count : String → Store → ℕ
deployment_count pid s = length (keep (λ d. d.program_id == pid) s.deployments)

unfoldable pub get_deployment : String → Store → Option Deployment
unfolding fetch
get_deployment rid s = fetch (is_request rid) s.deployments

abbrev pub is_scenario : String → Scenario → Bool
is_scenario key x = x.idempotency_key == key

abbrev pub new_scenario : ℕ → String → String → ℕ → String → Scenario
new_scenario now key scenario number uri = record {
  idempotency_key = key;
  scenario_id = scenario;
  issue_number = number;
  issue_uri = uri;
  created_at = now;
  reset_at = none;
}

-- The row of a key is of the issue that the caller names.
abbrev pub same_issue : ℕ → String → Scenario → Run Scenario
same_issue number uri row =
    assure (row.issue_number == number && row.issue_uri == uri) value_error >> pure row

unfoldable pub record_demo_scenario : ℕ → String → String → ℕ → String → Run Scenario
unfolding fetch
record_demo_scenario now key scenario number uri s = elim (fetch (is_scenario key) s.scenarios) [
  | some row ↦ same_issue number uri row s
  | none ↦
      if any (λ (x : Scenario). x.issue_number == number || x.issue_uri == uri) s.scenarios
      then (err integrity_error, s)
      else same_issue number uri (new_scenario now key scenario number uri)
          (record s { scenarios = s.scenarios ++ new_scenario now key scenario number uri ∷ [] })
]

unfoldable pub get_demo_scenario : String → Store → Option Scenario
unfolding fetch
get_demo_scenario key s = fetch (is_scenario key) s.scenarios

-- COALESCE(reset_at, ?)
abbrev pub coalesce : Option ℕ → ℕ → Option ℕ
coalesce none now = some now
coalesce (some t) now = some t

unfoldable pub reset_demo_scenario : ℕ → String → Run Scenario
unfolding fetch update
reset_demo_scenario now key s =
    if any (is_scenario key) s.scenarios
    then (let rows =
          update (is_scenario key) (λ x. record x { reset_at = coalesce x.reset_at now })
            s.scenarios in
        expected type_error (fetch (is_scenario key) rows) (record s { scenarios = rows }))
    else (err key_error, s)
