-- ===== src/Demo/Activities.antt =====
-- integrations/github-factory-demo/barista_github_factory_demo/store.py: the activity documents that
-- are to be published. A document is its canonical text without a revision; the hash and the text
-- with a revision are parameters.
use barista_apps.Prelude.{
  ℕ, suc, String, Bool, true, not, ◌&&◌, Option, none, some, [], ◌∷◌, ◌++◌, ◌==◌, text_equality,
  if◌then◌else◌,
}
use barista_apps.Prelude.Tables.{fetch, update}
use barista_apps.Prelude.Text.{one_line}
use barista_apps.Demo.Rows.{Activity}
use barista_apps.Demo.Store.{Store}

abbrev pub is_activity : String → Activity → Bool
is_activity pid a = a.program_id == pid

-- `published_digest IS NULL OR published_digest != content_digest`
unfoldable pub is_due : Activity → Bool
is_due a = elim a.published_digest [ none ↦ true | some d ↦ not (d == a.content_digest) ]

unfoldable pub activity_target : String → Store → Option Activity
unfolding fetch is_due
activity_target pid s = fetch (λ a. is_activity pid a && is_due a) s.activities

abbrev pub of_content : String → String → Activity → Bool
of_content pid digest a = a.program_id == pid && a.content_digest == digest

unfoldable pub activity_succeeded : ℕ → String → String → Store → Store
unfolding update
activity_succeeded now pid digest s = record s {
  activities =
      update (of_content pid digest)
        (λ a. record a {
          published_digest = some digest;
          last_error = none;
          attempts = suc a.attempts;
          updated_at = now;
        })
        s.activities;
}

unfoldable pub activity_failed : ℕ → String → String → String → Store → Store
unfolding update one_line
activity_failed now pid digest message s = record s {
  activities =
      update (of_content pid digest)
        (λ a. record a {
          last_error = some (one_line 1000 message);
          attempts = suc a.attempts;
          updated_at = now;
        })
        s.activities;
}

module _ (sha256 : String → String) (with_revision : String → ℕ → String) where
  abbrev pub new_activity : ℕ → String → String → Activity
  new_activity now pid source = record {
    program_id = pid;
    revision = 1;
    content_digest = sha256 (with_revision source 1);
    source = source;
    published_digest = none;
    last_error = none;
    attempts = 0;
    updated_at = now;
  }

  abbrev pub revised : ℕ → String → ℕ → Activity → Activity
  revised now source revision a = record a {
    revision = revision;
    content_digest = sha256 (with_revision source revision);
    source = source;
    last_error = none;
    updated_at = now;
  }

  -- The row that there is, and the document that is asked for.
  abbrev pub desired : ℕ → String → String → Option Activity → Store → (String × ℕ) × Store
  desired now pid source none s =
      ((source, 1), record s { activities = s.activities ++ new_activity now pid source ∷ [] })
  desired now pid source (some a) s =
      if sha256 a.source == sha256 source then ((a.source, a.revision), s) else (
        (source, suc a.revision),
        record s {
          activities = update (is_activity pid) (revised now source (suc a.revision)) s.activities;
        },
      )

  -- The document with its revision.
  unfoldable pub desire_activity : ℕ → String → String → Store → (String × ℕ) × Store
  unfolding fetch update
  desire_activity now pid source s = desired now pid source (fetch (is_activity pid) s.activities) s
