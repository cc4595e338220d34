-- ===== src/Sdk/Samples.antt =====
-- Runs of the App Run documents and of the collection at concrete inputs.
use barista_apps.Prelude.{
  ℕ, ◌+◌, Bool, true, false, none, some, [], ◌∷◌, ◌≡◌, refl, arith, leb, if◌then◌else◌, ◌↔◌, ◌⊎◌,
}
use barista_apps.Prelude.Result.{ok}
use barista_apps.Prelude.Dict.{find}
use barista_apps.Sdk.Json.{Json, boolean, string, object, Members, empty, member, get, unknown}
use barista_apps.Sdk.Names.{
  codes, name_tail, matches_name, at_dots, matches_kind, after, matches_secret_ref, is_name,
  is_kind, is_secret_ref,
}
use barista_apps.Sdk.Runs.{
  AppRun, parse_run, to_document, parse_maps, parse_each, parse_binding, parse_secrets,
  parse_secret, parse_delivery, missing_credentials, credentials, mapping, optional, require_name,
  require_kind, require_text, require_media_type, require_value, is_media_type, parse_input,
}
use barista_apps.Sdk.RoundTrip.{parse_run-to_document}
use barista_apps.Sdk.Validate.{
  RunOperation, from_manifest, slots, missing, validate_slots, validate_input, validate_run,
}
use barista_apps.Sdk.Declared.{Admits, validate_run-eq-ok}
use barista_apps.Sdk.Lifecycle.{
  Artifact, exec_stdout, exec_exit, Client, Codecs, wait, artifact_round, wait_for_result_artifact,
  wait_until_running,
}
use barista_apps.Sdk.Collect.{
  Options, Collected, output_of, before_colon, has_identity, identifies, read_result_bytes, digest,
  verified, collect_only, collect_app_run_result,
}
use barista_apps.Sdk.Waiting.{IsTimely, Ends, wait_for_result_artifact-Ends}
use barista_apps.Sdk.Verified.{IsCollected, collect_app_run_result-IsCollected}
use barista_apps.Sdk.Intact.{IsKept, collect_app_run_result-Keeps}

abbrev binding_doc : Members
binding_doc =
    member "kind" (string "git.repo")
      (member "uri" (string "https://x") (member "credential" (string "token") empty))

abbrev run_doc : Members
run_doc = member "name" (string "fix-1") (
    member "schema_version" (string "v1alpha1") (
      member "app" (string "factory") (
        member "operation" (string "change") (
          member "bindings" (object (member "repo" (object binding_doc) empty)) (
            member "secrets" (object (member "token" (string "env://T") empty)) (
              member "input"
                (object (member "value" (boolean true) (member "media_type" (string "a/b") empty)))
                empty))))))

abbrev run : AppRun
run = record {
  name = "fix-1";
  app = "factory";
  operation = "change";
  input_media_type = "a/b";
  input_value = boolean true;
  bindings =
      (
        "repo",
        record {
          kind = "git.repo";
          uri = "https://x";
          ref = none;
          credential = some "token";
          options = empty;
        },
      )
      ∷ [];
  secrets = ("token", "env://T") ∷ [];
  deliveries = [];
  metadata = empty;
}

run_doc-parsed : parse_run run_doc ≡ ok run
unfolding parse_run unknown get require_name require_text require_kind parse_input mapping
    parse_maps parse_each parse_binding optional parse_secrets parse_secret parse_delivery
    missing_credentials credentials require_media_type require_value is_media_type codes name_tail
    matches_name at_dots matches_kind after matches_secret_ref is_name is_kind is_secret_ref
run_doc-parsed = refl

parse_run-to_document_example : parse_run (to_document run) ≡ ok run
parse_run-to_document_example = parse_run-to_document run_doc run run_doc-parsed

abbrev operation : RunOperation
operation = record {
  name = "change";
  lifecycle = "job";
  input_media_type = "a/b";
  input_schema = some (boolean true);
  bindings = ("repo", record { kinds = "git.repo" ∷ []; required = true }) ∷ [];
  outputs = [];
  deliveries = [];
}

-- A validator by which only the schema `true` holds.
abbrev sample_conforms : Json → Json → Bool
sample_conforms (boolean b) v = b
sample_conforms _ v = false

validate_run-eq-ok_example :
    (validate_run sample_conforms run (("change", operation) ∷ []) ≡ ok operation)
    ↔ Admits sample_conforms run (("change", operation) ∷ []) operation
validate_run-eq-ok_example =
    validate_run-eq-ok sample_conforms run (("change", operation) ∷ []) operation

run-Admits : Admits sample_conforms run (("change", operation) ∷ []) operation
unfolding validate_run from_manifest slots validate_slots missing validate_input require_name
    is_name codes matches_name name_tail find
run-Admits = validate_run-eq-ok_example.0 refl

-- A clock, and whether the session was deleted.
abbrev Sample : Type 0
Sample = ℕ × Bool

abbrev artifact : Artifact
artifact = record {
  id = "r1";
  name = "app-run-result.json";
  digest = "sha256:aa";
  size_bytes = 2;
  media_type = "application/vnd.barista.app-run-result.v1alpha1+json";
}

-- The result is there from the third tick on.
abbrev client : Client Sample
client = record {
  list_artifacts = λ sid h. (ok (if leb 3 h.0 then artifact ∷ [] else []), h);
  session_state = λ sid h. (ok "running", h);
  exec = λ sid argv key h. (ok (record { operation_id = "o1"; event_cursor = none }), h);
  wait_operation = λ id timeout h. (ok (some 0), h);
  events = λ sid from n h. (
    ok (
        record { operation_id = some "o2"; body = exec_stdout "z" }
        ∷ record { operation_id = some "o1"; body = exec_stdout "{}" }
        ∷ record { operation_id = some "o1"; body = exec_exit }
        ∷ []),
    h,
  );
  delete_session = λ sid key h. (ok "d1", (h.0, true));
  write = λ path bs h. (ok tt, h);
  now = λ h. h.0;
  sleep = λ d h. (h.0 + d, h.1);
}

abbrev result : Members
result = member "run" (string "fix-1") (
    member "app" (string "factory") (
      member "operation" (string "change") (
        member "identity" (object (member "version" (string "1") empty))
          (member "state" (string "succeeded") empty))))

abbrev codecs : Codecs
codecs = record {
  hexdigest = λ algorithm bs. "aa";
  b64decode = λ s. some (b'{' ∷ b'}' ∷ []);
  loads = λ bs. some (object result);
  conforms = λ ms. true;
  canonical_bytes = λ ms. b'{' ∷ b'}' ∷ [];
  run_digest = λ r. "cc";
}

client-IsTimely : IsTimely client
client-IsTimely = record {
  lists = λ sid h. omega arith;
  states = λ sid h. omega arith;
  sleeps = λ d h. omega arith;
  lists_end = λ sid h e. cc;
  states_end = λ sid h e. cc;
}

wait_for_result_artifact-Ends_example :
    Ends (wait_for_result_artifact client "s1" 5 1 6 (0, false)).0
    × Ends (wait_until_running client "s1" 5 1 6 (0, false)).0
wait_for_result_artifact-Ends_example =
    wait_for_result_artifact-Ends client client-IsTimely "s1" 5 1 6 (0, false) (omega arith)
      (omega arith)

abbrev options : Options
options = record {
  output = some "out.json";
  cleanup = true;
  timeout = 5;
  poll = 1;
  max_result_bytes = 10;
  expected_identity = ("version", "1") ∷ [];
}

abbrev answer : Collected
answer = record {
  session_id = "s1";
  artifact = artifact;
  result = result;
  bytes = b'{' ∷ b'}' ∷ [];
  output_path = some "out.json";
  session_deleted = true;
}

collected_here :
    collect_app_run_result client codecs run "s1" options 6 (0, false) ≡ (ok answer, (3, true))
unfolding collect_app_run_result collect_only wait_for_result_artifact wait artifact_round
    read_result_bytes output_of verified digest before_colon identifies has_identity get find
collected_here = refl

collect_app_run_result-IsCollected_example :
    IsCollected client codecs run options answer × true ≡ true
collect_app_run_result-IsCollected_example =
    collect_app_run_result-IsCollected client codecs run "s1" options 6 (0, false) (3, true) answer
      collected_here

client-IsKept : IsKept client (λ h. h.1 ≡ false)
client-IsKept = record {
  lists = λ sid h k. k;
  states = λ sid h k. k;
  execs = λ sid argv key h k. k;
  waits = λ id timeout h k. k;
  reads = λ sid from n h k. k;
  writes = λ path bs h k. k;
  sleeps = λ d h k. k;
}

collect_app_run_result-Keeps_example :
    ((collect_app_run_result client codecs run "s1" options 6 (0, false)).1.1 ≡ false)
    ⊎ ((true ≡ true)
        × (c : Collected) × (h1 : Sample) × (collect_only client codecs run "s1" options 6
              (0, false)
            ≡ (ok c, h1))
        × IsCollected client codecs run options c
        × (h1.1 ≡ false))
collect_app_run_result-Keeps_example =
    collect_app_run_result-Keeps client codecs (λ h. h.1 ≡ false) client-IsKept run "s1" options 6
      (0, false) refl
