-- ===== src/Manifest/Samples.antt =====
-- Manifests on which the rules run.
use barista_apps.Prelude.{String, false, none, some, List, [], ◌∷◌, ◌≡◌, refl, ◌↔◌, text_equality}
use barista_apps.Manifest.Grants.{
  Entry, bare, object, normalize, grant_beq, sorted_set, is_collection, to_string,
}
use barista_apps.Manifest.{
  Manifest, child_actions_exceed_app, child_created_scope_without_descendants,
  child_created_scope_exceeds_app_scope, child_create_without_descendants, duplicate_action_scope,
  check_manifest, allow_descendants, app_grants, child_grants, violation, excess, downward,
  not_held_downward, creates,
}
use barista_apps.Manifest.Acceptance.{IsClean, check_manifest-eq-nil}
use barista_apps.Manifest.Authority.{Names, Allows, AllowsDownward}
use barista_apps.Manifest.Offenders.{offenders_exact}

abbrev manifest : List Entry → List Entry → Manifest
manifest app child = record {
  permissions = some (record {
    actions = some app;
    child_sessions = some (record { actions = some child; allow_descendants = none });
  });
}

run : Unit {0}
unfolding check_manifest app_grants child_grants excess allow_descendants downward not_held_downward
    creates normalize grant_beq sorted_set is_collection to_string
run = tt

-- A coordinator that creates workers, and workers that only run.
abbrev modest : Manifest
modest =
    manifest
      (bare "session.create"
        ∷ object "session.exec" (some "created_sessions")
        ∷ bare "session.exec"
        ∷ [])
      (bare "session.exec" ∷ [])

modest_passes : check_manifest modest ≡ []
unfolding run
modest_passes = refl

-- Its workers could delete sessions, which the app itself cannot.
abbrev greedy : Manifest
greedy =
    manifest (bare "session.exec" ∷ object "session.exec" none ∷ [])
      (object "session.delete" (some "created_sessions") ∷ [])

greedy_fails :
    check_manifest greedy
    ≡ violation duplicate_action_scope ("session.exec@own_session" ∷ [])
      ∷ violation child_actions_exceed_app ("session.delete" ∷ [])
      ∷ violation child_created_scope_without_descendants ("session.delete" ∷ [])
      ∷ violation child_created_scope_exceeds_app_scope ("session.delete" ∷ [])
      ∷ []
unfolding run
greedy_fails = refl

check_manifest-eq-nil_example : (check_manifest modest ≡ []) ↔ IsClean modest
check_manifest-eq-nil_example = check_manifest-eq-nil modest

offenders_exact_example :
    (Names child_actions_exceed_app "session.delete" (check_manifest greedy)
      ↔ Allows "session.delete" (child_grants greedy)
        × (Allows "session.delete" (app_grants greedy) → ⊥))
    × (Names child_created_scope_without_descendants "session.delete" (check_manifest greedy)
        ↔ (allow_descendants greedy ≡ false)
          × AllowsDownward "session.delete" (child_grants greedy))
    × (Names child_created_scope_exceeds_app_scope "session.delete" (check_manifest greedy)
        ↔ AllowsDownward "session.delete" (child_grants greedy)
          × (AllowsDownward "session.delete" (app_grants greedy) → ⊥))
    × (Names child_create_without_descendants "session.delete" (check_manifest greedy)
        ↔ (allow_descendants greedy ≡ false)
          × Path String "session.delete" "session.create"
          × Allows "session.delete" (child_grants greedy))
offenders_exact_example = offenders_exact greedy "session.delete"
