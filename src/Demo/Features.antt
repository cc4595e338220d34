-- ===== src/Demo/Features.antt =====
-- integrations/github-factory-demo/barista_github_factory_demo/store.py: the plan of a program and
-- the states of its features.
use Prim.Native.String.{◌++◌ as append}
use barista_apps.Prelude.{
  ℕ, suc, String, Bool, true, false, not, ◌&&◌, Option, none, some, List, [], ◌∷◌, ◌++◌, ◌==◌,
  text_equality, number_equality, if◌then◌else◌, any, all, keep, length, eqb, ltb,
}
use barista_apps.Prelude.Result.{ok, err}
use barista_apps.Prelude.Action.{raise, ◌>>=◌, ◌>>◌}
use barista_apps.Prelude.Tables.{update, order_by}
use barista_apps.Demo.Rows.{Feature}
use barista_apps.Demo.Store.{
  Store, key_error, value_error, integrity_error, Run, modify, record_program_event, same_option,
}
use barista_apps.Demo.Programs.{is_program, event, link, program_row}

abbrev pub is_feature : String → String → Feature → Bool
is_feature pid fid f = f.program_id == pid && f.feature_id == fid

abbrev pub of_program : String → Feature → Bool
of_program pid f = f.program_id == pid

pub record PlannedFeature : Type 0 where
  pub id : String
  pub title : String
  pub summary : String
  pub acceptance_criteria : List String
  pub dependencies : List String

-- A plan: its JSON text, and its features.
pub record Plan : Type 0 where
  pub text : String
  pub features : List PlannedFeature

abbrev pub new_feature : ℕ → String → ℕ → PlannedFeature → Feature
new_feature now pid ordinal f = record {
  program_id = pid;
  feature_id = f.id;
  ordinal = ordinal;
  title = f.title;
  summary = f.summary;
  criteria = f.acceptance_criteria;
  dependencies = f.dependencies;
  status = "planned";
  issue_number = none;
  issue_uri = none;
  delivery_id = none;
  pr_number = none;
  pr_uri = none;
  head_commit = none;
  merged_commit = none;
  error = none;
  updated_at = now;
}

abbrev pub replanned : ℕ → PlannedFeature → Feature → Feature
replanned now f row = record row {
  title = f.title;
  summary = f.summary;
  criteria = f.acceptance_criteria;
  dependencies = f.dependencies;
  updated_at = now;
}

-- INSERT … ON CONFLICT DO UPDATE, for each feature from an ordinal on.
unfoldable pub put_features : ℕ → String → ℕ → List PlannedFeature → List Feature → List Feature
unfolding update
put_features now pid ordinal [] rows = rows
put_features now pid ordinal (f ∷ fs) rows = put_features now pid (suc ordinal) fs (
    if any (is_feature pid f.id) rows
    then update (is_feature pid f.id) (replanned now f) rows
    else rows ++ new_feature now pid ordinal f ∷ [])

-- Whether a plan of this digest may be saved.
abbrev pub admits_plan : Option String → String → Bool
admits_plan none digest = true
admits_plan (some d) digest = d == digest

unfoldable pub planned : ℕ → String → Plan → String → Store → Store
unfolding update put_features
planned now pid plan digest s = record s {
  programs =
      update (is_program pid)
        (λ p. record p {
          status = "publishing_features";
          plan = some plan.text;
          plan_digest = some digest;
          updated_at = now;
        })
        s.programs;
  features = put_features now pid 1 plan.features s.features;
}

unfoldable pub save_plan : ℕ → String → Plan → String → Run (Unit {0})
unfolding program_row planned record_program_event
save_plan now pid plan digest = do
  row ← program_row pid
  if admits_plan row.plan_digest digest
      then (modify (planned now pid plan digest)
          >> record_program_event now pid "plan-validated"
              (event "plan.validated" "Dependency plan validated"
                (some "The source independently parsed a bounded acyclic plan.") "succeeded" []
                (("digest", digest) ∷ []))
              (some now))
      else raise value_error

abbrev pub is_uri : String → Option String → Bool
is_uri uri o = same_option (some uri) o

abbrev pub free_for : String → Option String → Bool
free_for uri none = true
free_for uri (some u) = u == uri

-- The issue of a feature that is planned makes it blocked.
abbrev pub published : ℕ → ℕ → String → Feature → Feature
published now number uri f = record f {
  issue_number = some number;
  issue_uri = some uri;
  status = if f.status == "planned" then "blocked" else f.status;
  updated_at = now;
}

unfoldable pub assign_feature_issue : ℕ → String → String → ℕ → String → Run (Unit {0})
unfolding update record_program_event
assign_feature_issue now pid fid number uri s =
    let matches : Feature → Bool = λ f. is_feature pid fid f && free_for uri f.issue_uri in
    if not (any matches s.features)
    then (err key_error, s)
    else if any (λ f. not (is_feature pid fid f) && is_uri uri f.issue_uri) s.features
    then (err integrity_error, s)
    else record_program_event now pid (append "feature-" (append fid "-published"))
        (event "work.published" (append fid " published") none "queued"
          (link "issue" "Feature issue" uri) (("feature", fid) ∷ []))
        (some now) (record s { features = update matches (published now number uri) s.features })

unfoldable pub features_of : String → Store → List Feature
unfolding order_by
features_of pid s = order_by (λ f. f.ordinal) (keep (of_program pid) s.features)

abbrev pub is_none : {A : Type 0} → Option A → Bool
is_none none = true
is_none (some a) = false

unfoldable pub unpublished_features : String → Store → List Feature
unfolding features_of
unpublished_features pid s = keep (λ f. is_none f.issue_uri) (features_of pid s)

-- The status of a feature among rows; of two rows of one identifier, the last counts.
unfoldable pub is_merged : List Feature → String → Bool
is_merged [] fid = false
is_merged (f ∷ fs) fid =
    let rest = is_merged fs fid in
    if any (λ (g : Feature). g.feature_id == fid) fs
    then rest
    else f.feature_id == fid && f.status == "merged"

unfoldable pub ready_features : String → Store → List Feature
unfolding features_of is_merged
ready_features pid s =
    let rows = features_of pid s in
    keep
      (λ f.
        f.status == "blocked" && (not (is_none f.issue_uri) && all (is_merged rows) f.dependencies))
      rows

-- `_update_feature`
unfoldable pub update_feature : ℕ → String → String → (Feature → Feature) → Run (Unit {0})
unfolding update
update_feature now pid fid f s =
    if any (is_feature pid fid) s.features
    then (
      ok tt,
      record s {
        features =
            update (is_feature pid fid) (λ row. record (f row) { updated_at = now }) s.features;
      },
    )
    else (err key_error, s)

unfoldable pub all_features_merged : String → Store → Bool
all_features_merged pid s =
    let rows = keep (of_program pid) s.features in
    ltb 0 (length rows) && eqb (length (keep (λ f. f.status == "merged") rows)) (length rows)
