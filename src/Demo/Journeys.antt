-- ===== src/Demo/Journeys.antt =====
-- integrations/github-factory-demo/barista_github_factory_demo/store.py: a feature on its way from
-- its claim to its merge.
use Prim.Native.String.{◌++◌ as append}
use barista_apps.Prelude.{
  ℕ, String, Bool, false, not, ◌&&◌, Option, none, some, List, [], ◌∷◌, ◌==◌, text_equality,
  number_equality, if◌then◌else◌, any,
}
use barista_apps.Prelude.Action.{pure, raise, ◌>>=◌, ◌>>◌}
use barista_apps.Prelude.Tables.{fetch}
use barista_apps.Prelude.Text.{one_line, prefix}
use barista_apps.Demo.Rows.{Claim, Program, Feature}
use barista_apps.Demo.Store.{
  Store, key_error, integrity_error, type_error, Run, asks, expected, record_program_event,
}
use barista_apps.Demo.Deliveries.{claim}
use barista_apps.Demo.Programs.{event, link, update_program, program_row, fail_program}
use barista_apps.Demo.Features.{is_feature, is_uri, update_feature}

-- The pull request that a number of a repository is: of a program's document, or of a feature.
pub record Target : Type 0 where
  pub program_id : String
  -- of a feature
  pub feature_id : Option String
  pub expected_uri : Option String
  pub expected_head : Option String

abbrev pub is_number : ℕ → Option ℕ → Bool
is_number n none = false
is_number n (some m) = m == n

abbrev pub awaits_brd : String → ℕ → Program → Bool
awaits_brd repository number p =
    p.repository == repository
    && (is_number number p.brd_pr_number && p.status == "awaiting_brd_merge")

abbrev pub in_repository : String → List Program → Feature → Bool
in_repository repository ps f =
    any (λ (p : Program). p.program_id == f.program_id && p.repository == repository) ps

unfoldable pub pull_target : String → ℕ → Store → Option Target
unfolding fetch
pull_target repository number s = elim (fetch (awaits_brd repository number) s.programs) [
  | some p ↦ some (record {
    program_id = p.program_id;
    feature_id = none;
    expected_uri = p.brd_pr_uri;
    expected_head = p.brd_head_commit;
  })
  | none ↦
      elim (fetch
        (λ (f : Feature).
          in_repository repository s.programs f
          && (is_number number f.pr_number && f.status == "awaiting_merge"))
        s.features) [
          | none ↦ none
          | some f ↦ some (record {
            program_id = f.program_id;
            feature_id = some f.feature_id;
            expected_uri = f.pr_uri;
            expected_head = f.head_commit;
          })
        ]
]

-- The row of a published feature, and its issue.
abbrev pub published_row : Option Feature → Run (Feature × String)
published_row none = raise key_error
published_row (some f) = elim f.issue_uri [ none ↦ raise key_error | some uri ↦ pure (f, uri) ]

abbrev pub feature_commit : String → String → List (String × String)
feature_commit key commit = (key, commit) ∷ []

unfoldable pub record_feature_pr : ℕ → String → String → ℕ → String → String → Run (Unit {0})
unfolding update_feature update_program record_program_event
record_feature_pr now pid fid number uri head = do
  clash ← asks (λ s.
      any (λ f. not (is_feature pid fid f) && is_uri uri f.pr_uri) s.features
      && any (is_feature pid fid) s.features)
  if clash
      then raise integrity_error
      else update_feature now pid fid (λ f. record f {
        status = "awaiting_merge";
        pr_number = some number;
        pr_uri = some uri;
        head_commit = some head;
        error = none;
      })
  update_program now pid (λ p. record p { status = "implementing" })
  record_program_event now pid (append "feature-" (append fid "-verified"))
      (event "change.verified" (append fid " candidate verified")
        (some "Factory published a draft change for independent human review.") "waiting"
        (link "pull-request" "Feature pull request" uri) (feature_commit "head_commit" head))
      none

unfoldable pub merge_feature : ℕ → String → String → String → Run (Unit {0})
unfolding update_feature program_row record_program_event
merge_feature now pid fid commit = do
  update_feature now pid fid
      (λ f. record f { status = "merged"; merged_commit = some commit; error = none })
  row ← program_row pid
  record_program_event now pid (append "feature-" (append fid "-merged"))
      (event "change.merged" (append fid " merged") none "succeeded"
        (link "commit" "Merged commit" (append row.repository (append "/commit/" commit)))
        (feature_commit "commit" commit))
      none

module _ (sha256 : String → String) where
  abbrev pub feature_delivery : String → String → String
  feature_delivery pid fid = append "program-" (append (prefix 16 (sha256 pid)) (append "-" fid))

  unfoldable pub claim_feature : ℕ → String → String → String → Run Claim
  unfolding fetch program_row claim update_feature prefix
  claim_feature now pid fid run_name = do
    row ← asks (λ s. fetch (is_feature pid fid) s.features)
    f ← published_row row
    program ← program_row pid
    number ← expected type_error (f.0).issue_number
    c ← claim now (record {
      delivery_id = feature_delivery pid fid;
      repository = program.repository;
      issue_number = number;
      issue_uri = f.1;
      run_name = run_name;
      workflow_kind = "feature";
      program_id = some pid;
      feature_id = some fid;
    })
    update_feature now pid fid
        (λ row. record row { status = "running"; delivery_id = some c.delivery_id; error = none })
    pure c

  unfoldable pub fail_feature : ℕ → String → String → String → Run (Unit {0})
  unfolding update_feature fail_program one_line
  fail_feature now pid fid message = do
    update_feature now pid fid
        (λ f. record f { status = "failed"; error = some (one_line 1000 message) })
    fail_program sha256 now pid message
