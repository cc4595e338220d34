-- ===== src/Demo/Revisions.antt =====
-- integrations/github-factory-demo/barista_github_factory_demo/store.py: the revisions of an activity
-- document.
use barista_apps.Prelude.{
  ℕ, suc, String, none, some, ◌==◌, text_equality, ==_refl, if◌then◌else◌, ◌≡◌, refl, inl, inr,
  Bool-cases, Option-cases,
}
use barista_apps.Prelude.Tables.{fetch, fetch-append_none, fetch-update-some, fetch-holds}
use barista_apps.Demo.Store.{Store}
use barista_apps.Demo.Activities.{is_activity, new_activity, revised, desire_activity}

module _ (sha256 : String → String) (with_revision : String → ℕ → String) where
  -- A document that is asked for again, at any time, is answered with the same revision and changes
  -- nothing; the revision is 1 for a program that had none, that of the program's document where the
  -- content has its digest, and one more where it has another.
  pub desire_activity-IsStable :
      (now later : ℕ) (pid source : String) (s : Store)
      → (desire_activity sha256 with_revision later pid source
            (desire_activity sha256 with_revision now pid source s).1
          ≡ desire_activity sha256 with_revision now pid source s)
        × ((desire_activity sha256 with_revision now pid source s).0.1
            ≡ elim (fetch (is_activity pid) s.activities) [
              | none ↦ 1
              | some a ↦ if sha256 a.source == sha256 source then a.revision else suc a.revision
            ])
  unfolding desire_activity
  desire_activity-IsStable now later pid source s =
      elim (Option-cases (fetch (is_activity pid) s.activities)) [
        | inl n ↦ (
          rw
              (
                n,
                fetch-append_none (is_activity pid) s.activities
                    (new_activity sha256 with_revision now pid source) n (==_refl pid),
                ==_refl (sha256 source),
              )
              refl,
          rw n refl,
        )
        | inr (a, f) ↦ elim (Bool-cases (sha256 a.source == sha256 source)) [
          | inl e ↦ (rw (f, e, f, e) refl, rw (f, e) refl)
          | inr e ↦ (
            rw
                (
                  f,
                  e,
                  fetch-update-some (is_activity pid) (is_activity pid)
                      (revised sha256 with_revision now source (suc a.revision)) (λ x. refl)
                      s.activities,
                  f,
                  fetch-holds (is_activity pid) s.activities a f,
                  ==_refl (sha256 source),
                )
                refl,
            rw (f, e) refl,
          )
        ]
      ]
