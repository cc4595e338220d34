-- ===== src/Demo/Deliveries.antt =====
-- integrations/github-factory-demo/barista_github_factory_demo/store.py: the claim of a delivery, its
-- states, and the answers to its questions.

use barista_apps.Prelude.{
  ℕ, String, Bool, true, false, ◌&&◌, ◌||◌, Option, none, some, List, [], ◌∷◌, ◌++◌, ◌==◌,
  text_equality, number_equality, if◌then◌else◌, any, all, keep, map, contains, leb, eqb, length,
}
use barista_apps.Prelude.Result.{ok, err}
use barista_apps.Prelude.Action.{raise}
use barista_apps.Prelude.Tables.{fetch, update, order_by}
use barista_apps.Prelude.Text.{prefix, one_line}
use barista_apps.Sdk.Names.{codes, after}
use barista_apps.Demo.Rows.{External, Outcome, Delivery, Claim, Projection}
use barista_apps.Demo.Store.{Store, key_error, value_error, Run}

-- `_claim`
unfoldable pub claim_of : Delivery → Bool → Claim
claim_of d created = record {
  delivery_id = d.delivery_id;
  repository = d.repository;
  issue_number = d.issue_number;
  issue_uri = d.issue_uri;
  status = d.status;
  run_name = d.run_name;
  created = created;
  attempt = d.attempt;
  answer_comment_id = d.answer_comment_id;
  answer = d.answer;
  prior_result_digest = d.prior_result_digest;
  answers = d.answer_history;
  workflow_kind = d.workflow_kind;
  program_id = d.program_id;
  feature_id = d.feature_id;
}

-- The arguments of `claim`.
pub record Request : Type 0 where
  pub delivery_id : String
  pub repository : String
  pub issue_number : ℕ
  pub issue_uri : String
  pub run_name : String
  pub workflow_kind : String
  pub program_id : Option String
  pub feature_id : Option String

abbrev pub new_delivery : ℕ → Request → Delivery
new_delivery now r = record {
  delivery_id = r.delivery_id;
  repository = r.repository;
  issue_number = r.issue_number;
  issue_uri = r.issue_uri;
  status = "accepted";
  run_name = r.run_name;
  result = none;
  error = none;
  created_at = now;
  updated_at = now;
  attempt = 1;
  answer_comment_id = none;
  answer = none;
  prior_result_digest = none;
  question_digest = none;
  answer_history = [];
  workflow_kind = r.workflow_kind;
  program_id = r.program_id;
  feature_id = r.feature_id;
}

abbrev pub has_id : String → Delivery → Bool
has_id id d = d.delivery_id == id

abbrev pub is_issue : String → ℕ → Delivery → Bool
is_issue repository number d = d.repository == repository && d.issue_number == number

-- The row that an INSERT conflicts with: the one of the identifier before the one of the issue.
unfoldable pub conflict : String → String → ℕ → List Delivery → Option Delivery
unfolding fetch
conflict id repository number ds = elim (fetch (has_id id) ds) [
  | some d ↦ some d
  | none ↦ fetch (is_issue repository number) ds
]

unfoldable pub claim : ℕ → Request → Run Claim
unfolding conflict claim_of
claim now r s = elim (conflict r.delivery_id r.repository r.issue_number s.deliveries) [
  | some d ↦ (ok (claim_of d false), s)
  | none ↦ (
    ok (claim_of (new_delivery now r) true),
    record s { deliveries = s.deliveries ++ new_delivery now r ∷ [] },
  )
]

-- `_update`
unfoldable pub update_delivery : String → (Delivery → Delivery) → Run (Unit {0})
unfolding update
update_delivery id f s =
    if any (has_id id) s.deliveries
    then (ok tt, record s { deliveries = update (has_id id) f s.deliveries })
    else (err key_error, s)

unfoldable pub mark_running : ℕ → String → Run (Unit {0})
unfolding update_delivery
mark_running now id =
    update_delivery id (λ d. record d { status = "running"; error = none; updated_at = now })

unfoldable pub succeed : ℕ → String → Outcome → Run (Unit {0})
unfolding update_delivery
succeed now id result =
    update_delivery id
      (λ d. record d { status = "succeeded"; result = some result; error = none; updated_at = now })

unfoldable pub refuse : ℕ → String → Outcome → Run (Unit {0})
unfolding update_delivery
refuse now id result =
    update_delivery id
      (λ d. record d { status = "refused"; result = some result; error = none; updated_at = now })

abbrev pub is_hex : ℕ → Bool
is_hex c = (leb b'0' c && leb c b'9') || (leb b'a' c && leb c b'f')

-- sha256:[0-9a-f]{64}
unfoldable pub is_sha256 : List ℕ → Bool
unfolding codes after
is_sha256 cs = elim (after (codes "sha256:") cs) [
  | none ↦ false
  | some hex ↦ all is_hex hex && eqb (length hex) 64
]

unfoldable pub await_input : ℕ → String → Outcome → Run (Unit {0})
unfolding update_delivery is_sha256 codes
await_input now id result = elim result.question_digest [
  | none ↦ raise value_error
  | some digest ↦
      if is_sha256 (codes digest)
      then update_delivery id (λ d. record d {
        status = "awaiting_input";
        result = some result;
        question_digest = some digest;
        error = none;
        updated_at = now;
      })
      else raise value_error
]

unfoldable pub fail : ℕ → String → String → Run (Unit {0})
unfolding update_delivery one_line
fail now id message =
    update_delivery id
      (λ d. record d { status = "failed"; error = some (one_line 1000 message); updated_at = now })

unfoldable pub recoverable : Store → List Claim
unfolding order_by claim_of
recoverable s =
    map (λ d. claim_of d false)
      (order_by (λ d. d.created_at)
        (keep (λ d. contains ("accepted" ∷ "running" ∷ []) d.status) s.deliveries))

-- `get` and `get_issue`: the row and the projection of its issue.
abbrev pub with_projection : Store → Option Delivery → Option (Delivery × Option Projection)
with_projection s none = none
with_projection s (some d) = some (d, fetch (λ p. p.issue_uri == d.issue_uri) s.projections)

unfoldable pub get : String → Store → Option (Delivery × Option Projection)
unfolding fetch
get id s = with_projection s (fetch (has_id id) s.deliveries)

unfoldable pub get_issue : String → ℕ → Store → Option (Delivery × Option Projection)
unfolding fetch
get_issue repository number s = with_projection s (fetch (is_issue repository number) s.deliveries)

-- The deliveries of other events.
unfoldable pub claim_external_delivery : ℕ → String → String → Run Bool
claim_external_delivery now id event s =
    if any (λ (e : External). e.delivery_id == id) s.external then (ok false, s) else (
      ok true,
      record s {
        external =
            s.external
            ++ record {
              delivery_id = id;
              event = event;
              disposition = "received";
              created_at = now;
            }
              ∷ [];
      },
    )

unfoldable pub dispose_external_delivery : String → String → Store → Store
unfolding update prefix
dispose_external_delivery id disposition s = record s {
  external =
      update (λ e. e.delivery_id == id) (λ e. record e { disposition = prefix 80 disposition })
        s.external;
}
