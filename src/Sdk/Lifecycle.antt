-- ===== src/Sdk/Lifecycle.antt =====
-- sdks/python/barista_app_sdk/lifecycle.py: a run's result is waited for, read, verified, written and
-- only then, where that is asked for, is its session deleted. The client, the clock and the file
-- system are functions over the states of the world; the hash, base64 and JSON are parameters.

use barista_apps.Prelude.{
  ℕ, zero, suc, ◌+◌, ◌-◌, String, Bool, Option, none, some, List, [], ◌∷◌, ◌==◌, text_equality,
  if◌then◌else◌, contains, keep, leb, min,
}
use barista_apps.Prelude.Result.{ok}
use barista_apps.Prelude.Action.{Action, pure, raise, ◌>>=◌, ◌>>◌}
use barista_apps.Sdk.Json.{Json, Members}
use barista_apps.Sdk.Runs.{AppRun}

pub record Artifact : Type 0 where
  pub id : String
  pub name : String
  pub digest : String
  pub size_bytes : ℕ
  pub media_type : String

pub record ExecHandle : Type 0 where
  pub operation_id : String
  pub event_cursor : Option String

-- An event of the journal: a chunk of output, the end of an execution, or another.
pub data Happening : Type 0 where
  exec_stdout : String → Happening
  exec_exit other : Happening

pub record Event : Type 0 where
  pub operation_id : Option String
  pub body : Happening

-- A failed call of the client, and what the module raises itself, by the error's code.
pub data Fault : Type 0 where
  client_error : String → Fault
  value_error : Fault
  refused : String → Fault
  out_of_fuel : Fault

pub record Client (H : Type 0) : Type 0 where
  pub list_artifacts : String → Action Fault H (List Artifact)
  pub session_state : String → Action Fault H String
  pub exec : String → List String → String → Action Fault H ExecHandle
  pub wait_operation : String → ℕ → Action Fault H (Option ℕ)
  pub events : String → Option String → ℕ → Action Fault H (List Event)
  pub delete_session : String → String → Action Fault H String
  pub write : String → List ℕ → Action Fault H (Unit {0})
  pub now : H → ℕ
  pub sleep : ℕ → H → H

pub record Codecs : Type 0 where
  pub hexdigest : String → List ℕ → String
  pub b64decode : String → Option (List ℕ)
  pub loads : List ℕ → Option Json
  -- the schema of results
  pub conforms : Members → Bool
  pub canonical_bytes : Members → List ℕ
  -- the hexadecimal part of a run's content id
  pub run_digest : AppRun → String

abbrev pub failure_states : List String
failure_states = "error" ∷ "failed" ∷ "destroyed" ∷ "stopped" ∷ []

abbrev pub terminal_result_states : List String
terminal_result_states = "succeeded" ∷ "failed" ∷ "cancelled" ∷ "lost_authority" ∷ []

abbrev pub result_artifact : String
result_artifact = "app-run-result.json"

abbrev pub result_path : String
result_path = "/tmp/barista/app-run-result.json"

abbrev pub result_media_type : String
result_media_type = "application/vnd.barista.app-run-result.v1alpha1+json"

module _ {H : Type 0} (client : Client H) where
  abbrev pub now : Action Fault H ℕ
  now h = (ok (client.now h), h)

  abbrev pub sleep : ℕ → Action Fault H (Unit {0})
  sleep d h = (ok tt, client.sleep d h)

  abbrev pub sleep_until : ℕ → ℕ → Action Fault H (Unit {0})
  sleep_until deadline poll = now >>= λ t. sleep (min poll (deadline - t))

  -- What a round of waiting finds: an answer, or nothing yet.
  abbrev pub Round : Type 0 → Type 0
  Round A = Action Fault H (Option A)

  abbrev pub rounds : {A : Type 0} → Round A → String → ℕ → ℕ → ℕ → Option A → Action Fault H A
  rounds round late deadline poll zero o = raise out_of_fuel
  rounds round late deadline poll (suc fuel) (some a) = pure a
  rounds round late deadline poll (suc fuel) none = now >>= λ t.
      if leb deadline t
      then raise (refused late)
      else (sleep_until deadline poll >> (round >>= rounds round late deadline poll fuel))

  -- A `while True` loop of rounds with a deadline.
  unfoldable pub wait : {A : Type 0} → Round A → String → ℕ → ℕ → ℕ → Action Fault H A
  wait round late deadline poll fuel = round >>= rounds round late deadline poll fuel

  unfoldable pub running_round : String → Round String
  running_round sid = do
    state ← client.session_state sid
    if state == "running"
        then pure (some state)
        else if contains failure_states state
        then raise (refused "app_run.session_terminal")
        else pure none

  abbrev pub chosen : String → List Artifact → Round Artifact
  chosen sid (a ∷ b ∷ more) = raise (refused "app_run.result_ambiguous")
  chosen sid (a ∷ []) = pure (some a)
  chosen sid [] = do
    state ← client.session_state sid
    if contains failure_states state then raise (refused "app_run.result_missing") else pure none

  unfoldable pub artifact_round : String → Round Artifact
  artifact_round sid = do
    artifacts ← client.list_artifacts sid
    chosen sid (keep (λ a. a.name == result_artifact) artifacts)

  -- `_wait_until_running`
  unfoldable pub wait_until_running : String → ℕ → ℕ → ℕ → Action Fault H String
  unfolding wait running_round
  wait_until_running sid timeout poll fuel =
      now >>= λ t. wait (running_round sid) "app_run.readiness_timeout" (t + timeout) poll fuel

  -- `_wait_for_result_artifact`
  unfoldable pub wait_for_result_artifact : String → ℕ → ℕ → ℕ → Action Fault H Artifact
  unfolding wait artifact_round
  wait_for_result_artifact sid timeout poll fuel =
      now >>= λ t. wait (artifact_round sid) "app_run.result_timeout" (t + timeout) poll fuel
