-- ===== src/Demo/Saved.antt =====
-- integrations/github-factory-demo/barista_github_factory_demo/store.py: the rows of a plan that is
-- saved for the first time.
use barista_apps.Prelude.{ℕ, suc, String, false, List, [], ◌∷◌, text_equality, any, All, ◌≡◌}
use barista_apps.Prelude.Result.{Result}
use barista_apps.Demo.Rows.{Feature}
use barista_apps.Demo.Store.{Store}
use barista_apps.Demo.Features.{PlannedFeature, is_feature, new_feature}

-- One row for each feature of a plan, numbered from a number on.
unfoldable pub numbered : ℕ → String → ℕ → List PlannedFeature → List Feature
numbered now pid n [] = []
numbered now pid n (f ∷ fs) = new_feature now pid n f ∷ numbered now pid (suc n) fs

-- No row of these features.
abbrev Absent : String → List PlannedFeature → List Feature → Type 0
Absent pid fs rows = All (λ f. any (is_feature pid f.id) rows ≡ false) fs
