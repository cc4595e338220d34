-- ===== src/Provider/Artifacts.antt =====
-- providers/local/barista_local_provider/app.py: the handlers of artifacts, operations and events.
use barista_apps.Prelude.{ℕ, String, false, Option, none, some, List}
use barista_apps.Prelude.Result.{ok, err}
use barista_apps.Provider.Rows.{ArtifactRow, artifact_registered}
use barista_apps.Provider.Store
use barista_apps.Provider.Store.{Store}
use barista_apps.Prelude.Tables.{truthy}
use barista_apps.Provider.Handlers.{
  Response, reply, error, crash, not_found_error, invalid_request, World, artifact_body,
  artifacts_body, events_body, operation_body, discovery_body,
}

pub record ArtifactRequest : Type 0 where
  pub name : String
  pub digest : String
  pub size_bytes : ℕ
  pub media_type : String
  pub metadata : String

abbrev pub artifact_row : ℕ → String → String → ArtifactRequest → ArtifactRow
artifact_row now id sid q = record {
  id = id;
  session_id = sid;
  name = q.name;
  digest = q.digest;
  size_bytes = q.size_bytes;
  media_type = q.media_type;
  created_at = now;
  metadata = q.metadata;
}

unfoldable pub known_artifact : Option String → Store → Option ArtifactRow
known_artifact idem s = elim (truthy (Store.idempotent_lookup idem "artifact" s)) [
  | none ↦ none
  | some id ↦ Store.get_artifact id s
]

-- No cursor, a cursor that is no number, or a resume point.
pub data Cursor : Type 0 where
  absent malformed : Cursor
  at : ℕ → Cursor

module _ {N : Type 0} where
  unfoldable pub insert_artifact :
      ℕ → String → String → Option String → ArtifactRequest → World N → Response × World N
  insert_artifact now id sid idem q w =
      elim (Store.insert_artifact (artifact_row now id sid q) w.store) [
        | err e ↦ (crash e, w)
        | ok s ↦
            let s1 = (Store.append_event now sid (artifact_registered id) none s).1 in
            (
              reply 201 (artifact_body (artifact_row now id sid q)),
              record w { store = Store.idempotent_record now idem "artifact" id s1 },
            )
      ]

  -- `none` is a body in which a required field is missing.
  unfoldable pub register_artifact :
      ℕ → String → String → Option String → Option ArtifactRequest → World N → Response × World N
  unfolding known_artifact insert_artifact
  register_artifact now id sid idem body w = elim (Store.get_session sid w.store) [
    | none ↦ (not_found_error, w)
    | some _ ↦ elim (known_artifact idem w.store) [
      | some row ↦ (reply 201 (artifact_body row), w)
      | none ↦ elim body [
        | none ↦ (invalid_request "invalid_request", w)
        | some q ↦ insert_artifact now id sid idem q w
      ]
    ]
  ]

  unfoldable pub list_artifacts : String → World N → Response × World N
  list_artifacts sid w = (reply 200 (artifacts_body (Store.list_artifacts sid w.store)), w)

  unfoldable pub get_operation : String → World N → Response × World N
  get_operation id w = elim (Store.get_operation id w.store) [
    | none ↦ (not_found_error, w)
    | some op ↦ (reply 200 (operation_body op), w)
  ]

  unfoldable pub attach : String → World N → Response × World N
  attach sid w = elim (Store.get_session sid w.store) [
    | none ↦ (not_found_error, w)
    | some _ ↦ (error 426 "capability" "attach.upgrade_required" false, w)
  ]

  unfoldable pub events : String → Cursor → World N → Response × World N
  events sid absent w = (reply 200 (events_body (Store.read_events sid 0 100 w.store)), w)
  events sid malformed w = (invalid_request "cursor.invalid", w)
  events sid (at n) w = (reply 200 (events_body (Store.read_events sid n 100 w.store)), w)

  unfoldable pub discovery : List String → World N → Response × World N
  discovery caps w = (reply 200 (discovery_body caps), w)
