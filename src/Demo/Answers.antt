-- ===== src/Demo/Answers.antt =====
-- integrations/github-factory-demo/barista_github_factory_demo/store.py: `accept_answer`.
use Prim.Native.String.{◌++◌ as append}
use barista_apps.Prelude.{
  ℕ, suc, String, Bool, true, not, ◌||◌, Option, none, some, [], ◌∷◌, ◌++◌, ◌==◌, text_equality,
  number_equality, if◌then◌else◌, any, leb, ltb, length,
}
use barista_apps.Prelude.Result.{ok}
use barista_apps.Prelude.Action.{pure, ◌>>=◌, ◌>>◌}
use barista_apps.Prelude.Tables.{fetch, update, truthy}
use barista_apps.Prelude.Text.{decimal}
use barista_apps.Demo.Rows.{Outcome, Answer, Delivery, Claim, Comment, EventContent}
use barista_apps.Demo.Store.{Store, type_error, Run, asks, modify, expected, record_program_event}
use barista_apps.Demo.Deliveries.{claim_of, has_id, is_issue}

-- The arguments of `accept_answer`.
pub record AnswerRequest : Type 0 where
  pub delivery_id : String
  pub repository : String
  pub issue_number : ℕ
  pub comment_id : ℕ
  pub answer : String
  pub run_name_prefix : String

abbrev pub comment_of : ℕ → AnswerRequest → String → Comment
comment_of now r disposition = record {
  delivery_id = r.delivery_id;
  repository = r.repository;
  issue_number = r.issue_number;
  comment_id = r.comment_id;
  disposition = disposition;
  created_at = now;
}

-- The comment's row, with what became of it.
abbrev pub disposed : ℕ → AnswerRequest → String → Store → Store
disposed now r disposition s = record s {
  comments = s.comments ++ comment_of now r disposition ∷ [];
}

-- prior_result.get("factory_result_digest")
abbrev pub prior_of : Option Outcome → Option String
prior_of none = none
prior_of (some result) = result.factory_result_digest

abbrev pub answer_of : AnswerRequest → Delivery → Answer
answer_of r d = record {
  comment_id = r.comment_id;
  body = r.answer;
  prior_result_digest = truthy (prior_of d.result);
}

abbrev pub attempt_name : String → ℕ → String
attempt_name prefix attempt = append prefix (append "-attempt-" (decimal attempt))

-- The row of the next attempt.
unfoldable pub advanced : ℕ → AnswerRequest → Delivery → Delivery → Delivery
unfolding truthy decimal
advanced now r d row = record row {
  status = "accepted";
  run_name = attempt_name r.run_name_prefix (suc d.attempt);
  attempt = suc d.attempt;
  answer_comment_id = some r.comment_id;
  answer = some r.answer;
  prior_result_digest = prior_of d.result;
  answer_history = d.answer_history ++ answer_of r d ∷ [];
  updated_at = now;
}

abbrev pub clarification : AnswerRequest → Delivery → EventContent
clarification r d = record {
  event_type = "decision.received";
  title = "Clarification received";
  summary = some "An authorized responder supplied the missing product decision.";
  phase = some "running";
  actor = none;
  links =
      record {
        rel = "comment";
        label = "Clarification";
        url = append d.issue_uri (append "#issuecomment-" (decimal r.comment_id));
      }
      ∷ [];
  attributes = [];
}

-- The event of an answer, where the delivery is of a program.
abbrev pub announced : ℕ → AnswerRequest → Delivery → Option String → Run (Unit {0})
announced now r d none = pure tt
announced now r d (some pid) =
    record_program_event now pid (append "clarification-received-" (decimal (suc d.attempt)))
      (clarification r d) (some now)

abbrev pub advance : ℕ → AnswerRequest → Delivery → Store → Store
advance now r d s = record s {
  deliveries = update (has_id d.delivery_id) (advanced now r d) s.deliveries;
}

unfoldable pub accepted : ℕ → AnswerRequest → Delivery → Run (Option Claim × String)
unfolding fetch update truthy decimal advanced record_program_event claim_of
accepted now r d = do
  modify (λ s. disposed now r "accepted" (advance now r d s))
  row ← asks (λ s. fetch (has_id d.delivery_id) s.deliveries)
  announced now r d (truthy d.program_id)
  updated ← expected type_error row
  pure (some (claim_of updated true), "accepted")

-- A comment that is not the answer to a question.
abbrev pub turned_away : ℕ → AnswerRequest → String → Run (Option Claim × String)
turned_away now r disposition s = (ok (none, disposition), disposed now r disposition s)

unfoldable pub answered : ℕ → AnswerRequest → Option Delivery → Run (Option Claim × String)
unfolding accepted
answered now r none = turned_away now r "stale"
answered now r (some d) =
    if not (d.status == "awaiting_input")
    then turned_away now r "stale"
    else if leb 20 (length d.answer_history) || ltb 100 (suc d.attempt)
    then turned_away now r "answer_limit"
    else accepted now r d

-- The PRIMARY KEY and the UNIQUE column of the comments.
abbrev pub known_comment : AnswerRequest → Comment → Bool
known_comment r c = c.delivery_id == r.delivery_id || c.comment_id == r.comment_id

unfoldable pub accept_answer : ℕ → AnswerRequest → Run (Option Claim × String)
unfolding fetch answered
accept_answer now r s =
    if any (known_comment r) s.comments
    then (ok (none, "duplicate"), s)
    else answered now r (fetch (is_issue r.repository r.issue_number) s.deliveries) s
