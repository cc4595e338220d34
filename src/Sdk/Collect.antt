-- ===== src/Sdk/Collect.antt =====
-- sdks/python/barista_app_sdk/lifecycle.py: `collect_app_run_result` and `wait_app_run`.
use Prim.Native.Char.{code}
use Prim.Native.String.{◌++◌ as append}
use barista_apps.Prelude.{
  ℕ, ◌+◌, ◌/◌, String, Bool, true, false, not, ◌&&◌, Option, none, some, List, [], ◌∷◌, ◌++◌, ◌==◌,
  text_equality, if◌then◌else◌, contains, leb, ltb, eqb, min, max, length, all,
}
use barista_apps.Prelude.Dict.{Dict, find}
use barista_apps.Prelude.Result.{Result, ok, err}
use barista_apps.Prelude.Action.{Action, pure, raise, ◌>>=◌, ◌>>◌, assure, lifted}
use barista_apps.Sdk.Json.{Json, string, object, empty, Members, get}
use barista_apps.Sdk.Runs.{AppRun}
use barista_apps.Sdk.Validate.{RunOperation}
use barista_apps.Sdk.Lifecycle.{
  Artifact, exec_stdout, exec_exit, other, Event, Fault, value_error, refused, Client, Codecs,
  terminal_result_states, result_path, result_media_type, wait_for_result_artifact,
  wait_until_running,
}

pub record Options : Type 0 where
  pub output : Option String
  pub cleanup : Bool
  pub timeout : ℕ
  pub poll : ℕ
  pub max_result_bytes : ℕ
  pub expected_identity : Dict String

pub record Collected : Type 0 where
  pub session_id : String
  pub artifact : Artifact
  pub result : Members
  pub bytes : List ℕ
  pub output_path : Option String
  pub session_deleted : Bool

-- An event of another operation.
abbrev pub is_foreign : String → Event → Bool
is_foreign op e = elim e.operation_id [ none ↦ false | some id ↦ not (id == op) ]

abbrev pub prepend : List ℕ → Result Fault (List ℕ × Bool) → Result Fault (List ℕ × Bool)
prepend bs (ok (out, exited)) = ok (bs ++ out, exited)
prepend bs (err e) = err e

abbrev pub continued : Option (List ℕ) → Result Fault (List ℕ × Bool) → Result Fault (List ℕ × Bool)
continued none rest = err (refused "binascii.Error")
continued (some bs) rest = prepend bs rest

-- The output up to the operation's exit, and whether that was seen.
unfoldable pub output_of :
    (String → Option (List ℕ)) → String → List Event → Result Fault (List ℕ × Bool)
output_of decode op [] = ok ([], false)
output_of decode op (e ∷ es) =
    let rest = output_of decode op es in
    if is_foreign op e then rest else elim e.body [
      | exec_stdout chunk ↦ continued (decode chunk) rest
      | exec_exit ↦ ok ([], true)
      | other ↦ rest
    ]

-- registered.partition(":")[0]
unfoldable pub before_colon : String → String
before_colon String.[] = ""
before_colon (String.◌∷◌ c s) =
    let rest = before_colon s in if eqb (code c) b':' then "" else String.◌∷◌ c rest

abbrev pub is_text : Option Json → String → Bool
is_text (some (string s)) t = s == t
is_text _ t = false

abbrev pub text_in : List String → Option Json → Bool
text_in names (some (string s)) = contains names s
text_in names _ = false

abbrev pub identity_fields : List String
identity_fields =
    "name" ∷ "version" ∷ "workload_digest" ∷ "manifest_digest" ∷ "source" ∷ "source_revision" ∷ []

-- document.get("identity", {})
abbrev pub identity_of : Option Json → Members
identity_of (some (object ms)) = ms
identity_of _ = empty

unfoldable pub has_identity : Dict String → Members → Bool
unfolding get
has_identity expected document =
    all
      (λ field. elim (find expected field) [
        | none ↦ true
        | some e ↦ is_text (get (identity_of (get document "identity")) field) e
      ])
      identity_fields

-- `_verify_result_identity`: whether there is no mismatch.
unfoldable pub identifies : AppRun → Dict String → Members → Bool
unfolding get has_identity
identifies run expected document =
    is_text (get document "run") run.name
    && (is_text (get document "app") run.app
        && (is_text (get document "operation") run.operation
            && (has_identity expected document
                && text_in terminal_result_states (get document "state"))))

-- A session that runs, or a result.
pub data Observed : Type 0 where
  session : String → Observed
  collected : Collected → Observed

abbrev pub same_bytes : List ℕ → List ℕ → Bool
same_bytes [] [] = true
same_bytes [] (y ∷ ys) = false
same_bytes (x ∷ xs) [] = false
same_bytes (x ∷ xs) (y ∷ ys) = eqb x y && same_bytes xs ys

module _ {H : Type 0} (client : Client H) (codecs : Codecs) where
  -- `_read_result_bytes`
  unfoldable pub read_result_bytes : String → ℕ → Action Fault H (List ℕ)
  unfolding output_of
  read_result_bytes sid max_events = do
    handle ← client.exec sid ("cat" ∷ result_path ∷ []) (append "app-run-result-read-" sid)
    exit_code ← client.wait_operation handle.operation_id 120
    events ← client.events sid handle.event_cursor max_events
    out ← lifted (output_of codecs.b64decode handle.operation_id events)
    assure (elim exit_code [ none ↦ false | some n ↦ eqb n 0 ] && out.1)
        (refused "app_run.result_unreadable")
    pure out.0

  -- `_digest`
  unfoldable pub digest : List ℕ → String → Action Fault H String
  unfolding before_colon
  digest raw registered =
      let algorithm = before_colon registered in
      if contains ("sha256" ∷ "sha512" ∷ []) algorithm
      then pure (append algorithm (append ":" (codecs.hexdigest algorithm raw)))
      else raise (refused "app_run.result_digest_algorithm")

  abbrev pub loaded : Option Json → Action Fault H Members
  loaded none = raise (refused "app_run.result_invalid_json")
  loaded (some (object ms)) =
      assure (codecs.conforms ms) (refused "app_run.result_invalid") >> pure ms
  loaded (some _) = raise (refused "app_run.result_invalid")

  -- The checks of the bytes against their registration and the run.
  unfoldable pub verified : AppRun → Dict String → Artifact → List ℕ → Action Fault H Members
  unfolding digest identifies
  verified run expected artifact raw = do
    assure (eqb (length raw) artifact.size_bytes) (refused "app_run.result_size_mismatch")
    actual ← digest raw artifact.digest
    assure (actual == artifact.digest) (refused "app_run.result_digest_mismatch")
    result ← loaded (codecs.loads raw)
    assure (same_bytes (codecs.canonical_bytes result) raw) (refused "app_run.result_not_canonical")
    assure (identifies run expected result) (refused "app_run.result_identity_mismatch")
    pure result

  abbrev pub persisted : Option String → List ℕ → Action Fault H (Unit {0})
  persisted none raw = pure tt
  persisted (some path) raw = client.write path raw

  abbrev pub cleaned : Bool → String → String → ℕ → Action Fault H (Unit {0})
  cleaned false sid key timeout = pure tt
  cleaned true sid key timeout = client.delete_session sid key >>= λ id.
      client.wait_operation id (min timeout 120) >>= λ _. pure tt

  -- All that comes before the cleanup.
  unfoldable pub collect_only : AppRun → String → Options → ℕ → Action Fault H Collected
  unfolding wait_for_result_artifact read_result_bytes verified
  collect_only run sid o fuel = do
    assure (ltb 0 o.timeout && ltb 0 o.poll) value_error
    assure (ltb 0 o.max_result_bytes) value_error
    artifact ← wait_for_result_artifact client sid o.timeout o.poll fuel
    assure (artifact.media_type == result_media_type) (refused "app_run.result_media_type")
    assure (leb artifact.size_bytes o.max_result_bytes) (refused "app_run.result_too_large")
    raw ← read_result_bytes sid (max 100 (artifact.size_bytes / 1024 + 20))
    result ← verified run o.expected_identity artifact raw
    persisted o.output raw
    pure (record {
      session_id = sid;
      artifact = artifact;
      result = result;
      bytes = raw;
      output_path = o.output;
      session_deleted = false;
    })

  unfoldable pub collect_app_run_result : AppRun → String → Options → ℕ → Action Fault H Collected
  unfolding collect_only
  collect_app_run_result run sid o fuel = collect_only run sid o fuel >>= λ c.
      cleaned o.cleanup sid (append "app-run-" (append (codecs.run_digest run) "-cleanup"))
        o.timeout
      >>= λ _. pure (record c { session_deleted = o.cleanup })

  unfoldable pub wait_app_run :
      AppRun → String → RunOperation → Options → ℕ → Action Fault H Observed
  unfolding wait_until_running collect_app_run_result
  wait_app_run run sid op o fuel =
      if contains ("service" ∷ "interactive" ∷ []) op.lifecycle
      then (wait_until_running client sid o.timeout o.poll fuel >>= λ s. pure (session s))
      else if not (contains ("job" ∷ "coordinator" ∷ []) op.lifecycle)
      then raise (refused "app_run.lifecycle_invalid")
      else (collect_app_run_result run sid o fuel >>= λ c. pure (collected c))
