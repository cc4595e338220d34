-- ===== src/Demo/Programs.antt =====
-- integrations/github-factory-demo/barista_github_factory_demo/store.py: the states of a program.
-- The columns of a row change in one update; a program that is not
-- there is a `KeyError`.
use Prim.Native.String.{◌++◌ as append}
use barista_apps.Prelude.{
  ℕ, String, Bool, Option, none, some, List, [], ◌∷◌, ◌++◌, ◌==◌, text_equality, number_equality,
  if◌then◌else◌, any, keep, map, contains,
}
use barista_apps.Prelude.Result.{ok, err}
use barista_apps.Prelude.Action.{raise, ◌>>=◌, ◌>>◌}
use barista_apps.Prelude.Tables.{fetch, update, order_by}
use barista_apps.Prelude.Text.{decimal, one_line, prefix}
use barista_apps.Demo.Rows.{Claim, Program, Link, EventContent}
use barista_apps.Demo.Store.{
  Store, key_error, value_error, integrity_error, Run, asks, expected, record_program_event,
}
use barista_apps.Demo.Deliveries.{has_id}

abbrev pub is_program : String → Program → Bool
is_program pid p = p.program_id == pid

-- An event without actor.
abbrev pub event :
    String → String → Option String → String → List Link → List (String × String) → EventContent
event type title summary phase links attributes = record {
  event_type = type;
  title = title;
  summary = summary;
  phase = some phase;
  actor = none;
  links = links;
  attributes = attributes;
}

abbrev pub link : String → String → String → List Link
link rel label url = record { rel = rel; label = label; url = url } ∷ []

abbrev pub new_program : ℕ → String → Claim → Program
new_program now pid claim = record {
  program_id = pid;
  repository = claim.repository;
  issue_number = claim.issue_number;
  issue_uri = claim.issue_uri;
  status = "brd_running";
  brd_delivery_id = claim.delivery_id;
  brd_pr_number = none;
  brd_pr_uri = none;
  brd_head_commit = none;
  brd_path = none;
  brd_digest = none;
  approved_commit = none;
  approved_by = none;
  approved_at = none;
  plan = none;
  plan_digest = none;
  acceptance = none;
  error = none;
  created_at = now;
  updated_at = now;
}

abbrev pub opened : Claim → EventContent
opened claim =
    event "work.created" "Product program opened"
      (some "The source controller accepted the root issue as a new program.") "queued"
      (link "issue" "Root issue" claim.issue_uri) []

unfoldable pub ensure_program : ℕ → String → Claim → Run (Unit {0})
unfolding record_program_event
ensure_program now pid claim s =
    if any (is_program pid) s.programs
    then (ok tt, s)
    else if any (λ (p : Program). p.issue_uri == claim.issue_uri) s.programs
    then (err integrity_error, s)
    else record_program_event now pid "program-created" (opened claim) (some now)
        (record s { programs = s.programs ++ new_program now pid claim ∷ [] })

-- `_update_program`
unfoldable pub update_program : ℕ → String → (Program → Program) → Run (Unit {0})
unfolding update
update_program now pid f s =
    if any (is_program pid) s.programs
    then (
      ok tt,
      record s {
        programs = update (is_program pid) (λ p. record (f p) { updated_at = now }) s.programs;
      },
    )
    else (err key_error, s)

-- `_program_issue` and `_program_repository` read the row.
unfoldable pub program_row : String → Run Program
unfolding fetch
program_row pid s = expected key_error (fetch (is_program pid) s.programs) s

-- The attempt of the delivery of the program's document.
unfoldable pub brd_attempt : String → Store → ℕ
unfolding fetch
brd_attempt pid s = elim (fetch (is_program pid) s.programs) [
  | none ↦ 1
  | some p ↦ elim (fetch (has_id p.brd_delivery_id) s.deliveries) [ none ↦ 1 | some d ↦ d.attempt ]
]

abbrev pub in_status : String → Program → Program
in_status status p = record p { status = status; error = none }

unfoldable pub record_brd_waiting : ℕ → String → Run (Unit {0})
unfolding update_program brd_attempt record_program_event
record_brd_waiting now pid = do
  update_program now pid (in_status "brd_needs_input")
  attempt ← asks (brd_attempt pid)
  record_program_event now pid (append "clarification-requested-" (decimal attempt))
      (event "decision.requested" "Clarification requested"
        (some "The source ended the bounded attempt and requested a fresh human answer.") "waiting"
        [] [])
      none

unfoldable pub record_brd_running : ℕ → String → Run (Unit {0})
unfolding update_program
record_brd_running now pid = update_program now pid (in_status "brd_running")

-- What a result says of the draft that it published.
pub record Draft : Type 0 where
  pub uri : Option String
  pub number : Option ℕ
  pub head_commit : Option String

unfoldable pub record_brd : ℕ → String → String → ℕ → String → Run (Unit {0})
unfolding update_program record_program_event program_row
record_brd now pid uri number head = do
  row ← program_row pid
  update_program now pid (λ p. record p {
    status = "awaiting_brd_merge";
    brd_pr_number = some number;
    brd_pr_uri = some uri;
    brd_head_commit = some head;
    brd_path = some (append "docs/brd/program-" (append (decimal row.issue_number) ".md"));
    error = none;
  })
  record_program_event now pid "brd-published"
      (event "proposal.published" "BRD published for review"
        (some "Factory verified and published a draft; merge remained a human gate.") "waiting"
        (link "pull-request" "BRD pull request" uri) (("head_commit", head) ∷ []))
      none

unfoldable pub record_brd_pr : ℕ → String → Draft → Run (Unit {0})
unfolding record_brd
record_brd_pr now pid draft = elim draft.uri [
  | none ↦ raise value_error
  | some uri ↦ elim draft.number [
    | none ↦ raise value_error
    | some number ↦ elim draft.head_commit [
      | none ↦ raise value_error
      | some head ↦ record_brd now pid uri number head
    ]
  ]
]

unfoldable pub approve_brd : ℕ → String → String → String → String → ℕ → Run (Unit {0})
unfolding update_program record_program_event program_row
approve_brd now pid commit digest actor approved_at = do
  update_program now pid (λ p. record p {
    status = "planning";
    approved_commit = some commit;
    brd_digest = some digest;
    approved_by = some actor;
    approved_at = some approved_at;
    error = none;
  })
  row ← program_row pid
  record_program_event now pid "brd-approved"
      (record {
        event_type = "decision.approved";
        title = "BRD approved by merge";
        summary = none;
        phase = some "succeeded";
        actor = some actor;
        links = link "commit" "Approved commit" (append row.repository (append "/commit/" commit));
        attributes = ("commit", commit) ∷ ("digest", digest) ∷ [];
      })
      (some approved_at)

unfoldable pub mark_implementing : ℕ → String → Run (Unit {0})
unfolding update_program
mark_implementing now pid = update_program now pid (in_status "implementing")

unfoldable pub mark_accepting : ℕ → String → Run (Unit {0})
unfolding update_program
mark_accepting now pid = update_program now pid (in_status "accepting")

-- Of an acceptance: its JSON text, and the commit it names.
unfoldable pub complete_program : ℕ → String → String → String → Run (Unit {0})
unfolding update_program record_program_event program_row
complete_program now pid text commit = do
  update_program now pid
      (λ p. record p { status = "accepted"; acceptance = some text; error = none })
  row ← program_row pid
  record_program_event now pid "program-accepted"
      (event "work.accepted" "Exact assembled commit accepted"
        (some "Authority-stripped acceptance verified the assembled product.") "succeeded"
        (link "commit" "Accepted commit" (append row.repository (append "/commit/" commit)))
        (("commit", commit) ∷ []))
      none

unfoldable pub recoverable_programs : Store → List (String × String)
unfolding order_by
recoverable_programs s =
    map (λ p. (p.program_id, p.status))
      (order_by (λ p. p.created_at)
        (keep
          (λ p.
            contains ("planning" ∷ "publishing_features" ∷ "implementing" ∷ "accepting" ∷ [])
              p.status)
          s.programs))

module _ (sha256 : String → String) where
  unfoldable pub fail_program : ℕ → String → String → Run (Unit {0})
  unfolding update_program record_program_event one_line prefix
  fail_program now pid message = do
    update_program now pid
        (λ p. record p { status = "failed"; error = some (one_line 1000 message) })
    record_program_event now pid
        (append "program-failed-" (prefix 12 (sha256 (one_line 1000 message))))
        (event "work.failed" "Program failed" (some (one_line 1000 message)) "failed" [] []) none
