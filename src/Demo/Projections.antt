-- ===== src/Demo/Projections.antt =====
-- integrations/github-factory-demo/barista_github_factory_demo/store.py: the status that an issue is
-- to show on the project's board.
use barista_apps.Prelude.{
  ℕ, suc, String, Bool, ◌&&◌, Option, none, some, List, [], ◌∷◌, ◌++◌, ◌==◌, text_equality,
  if◌then◌else◌, any, map,
}
use barista_apps.Prelude.Tables.{update, order_by}
use barista_apps.Prelude.Text.{one_line}
use barista_apps.Demo.Rows.{Delivery, Projection}
use barista_apps.Demo.Store.{Store}

abbrev pub is_of : String → Projection → Bool
is_of uri p = p.issue_uri == uri

abbrev pub desires : String → String → Projection → Bool
desires uri status p = p.issue_uri == uri && p.desired_status == status

abbrev pub new_projection : ℕ → String → String → Option String → Projection
new_projection now uri status details = record {
  issue_uri = uri;
  desired_status = status;
  projected_status = none;
  item_id = none;
  last_error = none;
  attempts = 0;
  details = details;
  updated_at = now;
}

-- COALESCE(excluded.details_json, project_projections.details_json)
abbrev pub first_of : Option String → Option String → Option String
first_of none old = old
first_of (some new) old = some new

unfoldable pub desire_projection : ℕ → String → String → Option String → Store → Store
unfolding update
desire_projection now uri status details s = record s {
  projections =
      if any (is_of uri) s.projections
      then update (is_of uri)
          (λ p. record p {
            desired_status = status;
            details = first_of details p.details;
            updated_at = now;
          })
          s.projections
      else s.projections ++ new_projection now uri status details ∷ [];
}

-- INSERT … ON CONFLICT DO NOTHING, for each delivery.
unfoldable pub with_targets : ℕ → List Delivery → List Projection → List Projection
with_targets now [] ps = ps
with_targets now (d ∷ ds) ps = with_targets now ds (
    if any (is_of d.issue_uri) ps
    then ps
    else ps ++ new_projection now d.issue_uri d.status none ∷ [])

unfoldable pub projection_targets : ℕ → Store → List (String × String × Option String) × Store
unfolding order_by with_targets
projection_targets now s =
    let ps = with_targets now (order_by (λ d. d.created_at) s.deliveries) s.projections in
    (
      map (λ p. (p.issue_uri, p.desired_status, p.details)) (order_by (λ p. p.updated_at) ps),
      record s { projections = ps },
    )

unfoldable pub projection_succeeded : ℕ → String → String → String → Store → Store
unfolding update
projection_succeeded now uri status item s = record s {
  projections =
      update (desires uri status)
        (λ p. record p {
          projected_status = some status;
          item_id = some item;
          last_error = none;
          attempts = suc p.attempts;
          updated_at = now;
        })
        s.projections;
}

unfoldable pub projection_failed : ℕ → String → String → String → Store → Store
unfolding update one_line
projection_failed now uri status message s = record s {
  projections =
      update (desires uri status)
        (λ p. record p {
          last_error = some (one_line 500 message);
          attempts = suc p.attempts;
          updated_at = now;
        })
        s.projections;
}
