-- ===== src/Provider/Handlers.antt =====
-- providers/local/barista_local_provider/app.py: the handlers of the Host API over a node and the
-- store. Each handler is one step; the clock and fresh identifiers are arguments. Bodies arrive as
-- parsed documents, and replies keep the rows that the program renders as JSON.
use Prim.Native.String.{◌++◌ as append}
use barista_apps.Prelude.{
  ℕ, String, Bool, true, false, not, ◌&&◌, Option, none, some, List, [], ◌∷◌, ◌++◌, ◌==◌,
  text_equality, if◌then◌else◌, contains, keep,
}
use text.Mathlib.Text.{starts_with}
use barista_apps.Prelude.Dict.{Dict, find, assign}
use barista_apps.Prelude.Result.{Result, ok, err}
use barista_apps.Provider.Rows.{
  AppManifest, AppRow, SessionRow, OperationRow, EventRow, ArtifactRow,
}
use barista_apps.Provider.Store
use barista_apps.Provider.Store.{Store, Fault, type_error}
use barista_apps.Prelude.Tables.{truthy}
use barista_apps.Provider.Node.{NodeClient, NodeInstance, NodeFault, unsupported, not_found, failed}

pub data Body : Type 0 where
  session_body : SessionRow → Body
  null_body : Body
  operation_body : OperationRow → Body
  exec_body : String → Option ℕ → Body
  artifact_body : ArtifactRow → Body
  app_body : AppRow → Body
  sessions_body : List SessionRow → Body
  artifacts_body : List ArtifactRow → Body
  events_body : List EventRow → Body
  discovery_body : List String → Body

-- An answer, a structured error (status, class, code, retryable), or an uncaught exception.
pub data Response : Type 0 where
  reply : ℕ → Body → Response
  error : ℕ → String → String → Bool → Response
  crash : Fault → Response
  node_crash : NodeFault → Response

abbrev pub not_found_error : Response
not_found_error = error 404 "terminal" "not_found" false

abbrev pub capability_unsupported : Response
capability_unsupported = error 501 "capability" "capability.unsupported" false

abbrev pub invalid_request : String → Response
invalid_request code = error 422 "invalid_request" code false

abbrev pub unavailable : String → Response
unavailable code = error 503 "unavailable" code true

pub record World (N : Type 0) : Type 0 where
  pub store : Store
  pub node : N

pub record EnsureRequest : Type 0 where
  pub app : Option String
  pub name : Option String
  pub metadata : String
  pub env : Dict String
  pub args : List String
  pub key : Option String

pub data Verb : Type 0 where
  pause resume : Verb

abbrev pub kind_of : Verb → String
kind_of pause = "pause"
kind_of resume = "resume"

abbrev pub session_env : String
session_env = "BARISTA_APP_SESSION_ID"

-- `request.headers.get("authorization") == f"Bearer {self.token}"`
unfoldable pub authorized : Option String → Option String → Bool
authorized token header = elim (truthy token) [
  | none ↦ true
  | some t ↦ elim header [ none ↦ false | some h ↦ h == append "Bearer " t ]
]

-- `_AuthMiddleware.dispatch`: the error that stops a request, or none.
unfoldable pub auth_middleware : Option String → String → Option String → Option Response
unfolding authorized truthy
auth_middleware token path header = elim (truthy token) [
  | none ↦ none
  | some t ↦
      if starts_with path "/v1alpha1"
        && not (path == "/v1alpha1/discovery")
        && not (authorized token header)
      then some (error 401 "authentication" "unauthorized" false)
      else none
]

unfoldable pub all_in : List String → List String → Bool
all_in [] caps = true
all_in (c ∷ cs) caps = contains caps c && all_in cs caps

unfoldable pub replay_operation : Option String → String → Store → Option OperationRow
unfolding truthy
replay_operation idem kind s = elim (truthy (Store.idempotent_lookup idem kind s)) [
  | none ↦ none
  | some id ↦ Store.get_operation id s
]

abbrev pub is_of : OperationRow → String → Bool
is_of op sid = elim op.session_id [ none ↦ false | some s ↦ s == sid ]

module _ {N : Type 0} (client : NodeClient N) (caps : List String) where
  -- `manifest` has passed its schema.
  unfoldable pub install_app : ℕ → AppManifest → World N → Response × World N
  install_app now m w =
      if not (all_in m.required caps)
      then (capability_unsupported, w)
      else let granted = keep (λ c. contains (m.required ++ m.optional) c) caps in
        let (row, s) = Store.install_app now m granted w.store in
        (reply 201 (app_body row), record w { store = s })

  unfoldable pub get_installed_app : String → World N → Response × World N
  get_installed_app name w = elim (Store.get_app name w.store) [
    | none ↦ (not_found_error, w)
    | some row ↦ (reply 200 (app_body row), w)
  ]

  abbrev pub session_reply : Bool → String → Store → Response
  session_reply replay sid s = elim (Store.get_session sid s) [
    | none ↦ reply (if replay then 200 else 201) null_body
    | some row ↦ reply (if replay then 200 else 201) (session_body row)
  ]

  -- What the node's answer to `create_and_start` leads to.
  unfoldable pub started :
      ℕ → String → Bool → Result NodeFault NodeInstance × N → Store → Response × World N
  started now sid replay (ok instance', n) s =
      let s' = Store.finish_creation now sid instance'.state s in
      (session_reply replay sid s', record { store = s'; node = n })
  started now sid replay (err unsupported, n) s =
      (capability_unsupported, record { store = Store.set_session_state sid "error" s; node = n })
  started now sid replay (err not_found, n) s =
      (unavailable "session.start_uncertain", record { store = s; node = n })
  started now sid replay (err failed, n) s =
      (unavailable "session.start_uncertain", record { store = s; node = n })

  unfoldable pub start_reserved : ℕ → String → Bool → World N → Response × World N
  unfolding started
  start_reserved now sid replay w = elim (Store.pending_creation sid w.store) [
    | none ↦ (session_reply replay sid w.store, w)
    | some request ↦ started now sid replay (client.create_and_start request w.node) w.store
  ]

  abbrev pub reservation : String → String → String → AppRow → EnsureRequest → Store.Reservation
  reservation app sid node_id row q = record {
    sid = sid;
    app = app;
    name = q.name;
    metadata = q.metadata;
    request = record {
      instance_id = node_id;
      image = row.manifest.workload.image;
      digest = row.manifest.workload.digest;
      arch = row.manifest.workload.architecture;
      start_cmd = row.manifest.workload.entrypoint ++ q.args;
      env = assign q.env session_env sid;
      workdir = row.manifest.workload.working_dir;
    };
  }

  -- After `reserve_creation`; a key whose session is gone makes the subscript fail.
  unfoldable pub after_reserve :
      ℕ → String → Result Fault (Option SessionRow × Store) → World N → Response × World N
  unfolding start_reserved
  after_reserve now sid (err e) w = (crash e, w)
  after_reserve now sid (ok (none, s)) w = (crash type_error, record w { store = s })
  after_reserve now sid (ok (some row, s)) w =
      start_reserved now row.id (not (row.id == sid)) (record w { store = s })

  unfoldable pub ensure_new :
      ℕ → String → String → String → EnsureRequest → World N → Response × World N
  unfolding after_reserve
  ensure_new now sid node_id app q w = elim (Store.get_app app w.store) [
    | none ↦ (invalid_request "app.not_installed", w)
    | some row ↦ elim (find q.env session_env) [
      | some _ ↦ (invalid_request "session.reserved_env", w)
      | none ↦
          after_reserve now sid
            (Store.reserve_creation now (reservation app sid node_id row q) q.key w.store) w
    ]
  ]

  -- The session that the key of a request names, if there is one.
  unfoldable pub known_session : Option String → Store → Option SessionRow
  known_session idem s = elim (truthy (Store.idempotent_lookup idem "ensure" s)) [
    | none ↦ none
    | some id ↦ Store.get_session id s
  ]

  unfoldable pub ensure_session : ℕ → String → String → EnsureRequest → World N → Response × World N
  unfolding ensure_new known_session start_reserved truthy
  ensure_session now sid node_id q w = elim (truthy q.app) [
    | none ↦ (invalid_request "invalid_request", w)
    | some app ↦ elim (known_session q.key w.store) [
      | some row ↦ start_reserved now row.id true w
      | none ↦ ensure_new now sid node_id app q w
    ]
  ]
