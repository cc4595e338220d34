-- ===== src/Provider/Store.antt =====
-- providers/local/barista_local_provider/store.py: the methods of `Store` over its tables. The
-- clock and the random identifiers are arguments. A method that may raise returns a `Result`, and
-- a transaction that raises leaves the store as it was.
use barista_apps.Prelude.{
  ℕ, zero, suc, String, Bool, true, not, ◌&&◌, Option, none, some, List, [], ◌∷◌, ◌++◌, ◌==◌,
  text_equality, if◌then◌else◌, keep, any, leb, ltb, max,
}
use barista_apps.Prelude.Result.{Result, ok, err, ◌>>=◌}
use barista_apps.Prelude.Tables.{fetch, update, truthy, order_by}
use barista_apps.Provider.Rows.{
  AppManifest, AppRow, SessionRow, KeyRow, OperationRow, EventData, state_changed, EventRow,
  InstanceRequest, PendingRow, ArtifactRow,
}

pub record Store : Type 0 where
  pub apps : List AppRow
  pub sessions : List SessionRow
  pub keys : List KeyRow
  pub operations : List OperationRow
  pub events : List EventRow
  -- the counter behind AUTOINCREMENT
  pub last_seq : ℕ
  pub pending : List PendingRow
  pub artifacts : List ArtifactRow

-- A violated PRIMARY KEY, or a field read from `None`.
pub data Fault : Type 0 where
  integrity_error type_error : Fault

unfoldable pub same_app : String → String → AppRow → Bool
same_app name version r = r.name == name && r.version == version

unfoldable pub install_app : ℕ → AppManifest → List String → Store → AppRow × Store
unfolding same_app
install_app now m granted s =
    let row : AppRow = record {
      name = m.name;
      version = m.version;
      digest = m.workload.digest;
      manifest = m;
      granted_capabilities = granted;
      installed_at = now;
    } in
    (row, record s { apps = row ∷ keep (λ r. not (same_app m.name m.version r)) s.apps })

-- ORDER BY installed_at DESC LIMIT 1; of two rows of one second, the one installed last.
unfoldable pub newest : List AppRow → Option AppRow
newest [] = none
newest (r ∷ rs) = elim (newest rs) [
  | none ↦ some r
  | some q ↦ if leb q.installed_at r.installed_at then some r else some q
]

unfoldable pub get_app : String → Store → Option AppRow
unfolding newest
get_app name s = newest (keep (λ r. r.name == name) s.apps)

unfoldable pub idempotent_lookup : Option String → String → Store → Option String
unfolding truthy fetch
idempotent_lookup key kind s = elim (truthy key) [
  | none ↦ none
  | some k ↦ elim (fetch (λ r. r.key == k && r.kind == kind) s.keys) [
    | none ↦ none
    | some r ↦ some r.resource_id
  ]
]

abbrev pub key_row : ℕ → String → String → String → KeyRow
key_row now key kind id = record { key = key; kind = kind; resource_id = id; created_at = now }

-- INSERT OR REPLACE
unfoldable pub idempotent_record : ℕ → Option String → String → String → Store → Store
unfolding truthy
idempotent_record now key kind id s = elim (truthy key) [
  | none ↦ s
  | some k ↦ record s { keys = key_row now k kind id ∷ keep (λ r. not (r.key == k)) s.keys }
]

unfoldable pub purge_idempotency_for : String → Store → Store
purge_idempotency_for id s = record s { keys = keep (λ r. not (r.resource_id == id)) s.keys }

-- INSERT INTO idempotency, where the key is the primary key.
unfoldable pub insert_key : ℕ → Option String → String → String → Store → Result Fault Store
unfolding truthy
insert_key now key kind id s = elim (truthy key) [
  | none ↦ ok s
  | some k ↦
      if any (λ r. r.key == k) s.keys
      then err integrity_error
      else ok (record s { keys = key_row now k kind id ∷ s.keys })
]

unfoldable pub get_session : String → Store → Option SessionRow
unfolding fetch
get_session sid s = fetch (λ r. r.id == sid) s.sessions

unfoldable pub insert_session : SessionRow → Store → Result Fault Store
insert_session row s =
    if any (λ r. r.id == row.id) s.sessions
    then err integrity_error
    else ok (record s { sessions = s.sessions ++ row ∷ [] })

unfoldable pub insert_pending : PendingRow → Store → Result Fault Store
insert_pending row s =
    if any (λ r. r.session_id == row.session_id) s.pending
    then err integrity_error
    else ok (record s { pending = row ∷ s.pending })

-- What `ensure` knows of the session to be made.
pub record Reservation : Type 0 where
  pub sid : String
  pub app : String
  pub name : Option String
  pub metadata : String
  pub request : InstanceRequest

unfoldable pub reserved_row : ℕ → Reservation → SessionRow
reserved_row now r = record {
  id = r.sid;
  name = r.name;
  app = r.app;
  node_instance_id = r.request.instance_id;
  state = "creating";
  created_at = now;
  parent_session_id = none;
  metadata = r.metadata;
}

unfoldable pub insert_reservation : ℕ → Reservation → Option String → Store → Result Fault Store
unfolding insert_session insert_pending insert_key reserved_row
insert_reservation now r idem s = do
  s1 ← insert_session (reserved_row now r) s
  s2 ← insert_pending (record { session_id = r.sid; request = r.request }) s1
  insert_key now idem "ensure" r.sid s2

unfoldable pub reserve_creation :
    ℕ → Reservation → Option String → Store → Result Fault (Option SessionRow × Store)
unfolding idempotent_lookup truthy insert_reservation get_session
reserve_creation now r idem s = elim (truthy (idempotent_lookup idem "ensure" s)) [
  | some existing ↦ ok (get_session existing s, s)
  | none ↦ do s' ← insert_reservation now r idem s; ok (get_session r.sid s', s')
]

unfoldable pub pending_creation : String → Store → Option InstanceRequest
unfolding fetch
pending_creation sid s = elim (fetch (λ r. r.session_id == sid) s.pending) [
  | none ↦ none
  | some r ↦ some r.request
]

unfoldable pub set_session_state : String → String → Store → Store
unfolding update
set_session_state sid state s = record s {
  sessions = update (λ r. r.id == sid) (λ r. record r { state = state }) s.sessions;
}

-- INSERT INTO events
unfoldable pub append_event : ℕ → String → EventData → Option String → Store → ℕ × Store
append_event now sid body op s = (
  suc s.last_seq,
  record s {
    events =
        s.events
        ++ record {
          seq = suc s.last_seq;
          session_id = sid;
          operation_id = op;
          time = now;
          body = body;
        }
          ∷ [];
    last_seq = suc s.last_seq;
  },
)

unfoldable pub state_event : ℕ → String → String → Option String → Store → Store
unfolding append_event
state_event now sid state op s = (append_event now sid (state_changed state) op s).1

unfoldable pub finish_creation : ℕ → String → String → Store → Store
unfolding pending_creation set_session_state state_event
finish_creation now sid state s = elim (pending_creation sid s) [
  | none ↦ s
  | some _ ↦
      let s1 = set_session_state sid state s in
      state_event now sid state none
        (record s1 { pending = keep (λ r. not (r.session_id == sid)) s1.pending })
]

unfoldable pub create_session : SessionRow → Store → Result Fault (Option SessionRow × Store)
unfolding insert_session get_session
create_session row s = do s' ← insert_session row s; ok (get_session row.id s', s')

unfoldable pub delete_session : String → Store → Store
unfolding purge_idempotency_for
delete_session sid s = purge_idempotency_for sid (record s {
  sessions = keep (λ r. not (r.id == sid)) s.sessions;
  pending = keep (λ r. not (r.session_id == sid)) s.pending;
})

unfoldable pub node_instance_id : String → Store → Option String
unfolding get_session
node_instance_id sid s = elim (get_session sid s) [ none ↦ none | some r ↦ some r.node_instance_id ]

unfoldable pub get_operation : String → Store → Option OperationRow
unfolding fetch
get_operation id s = fetch (λ r. r.id == id) s.operations

unfoldable pub insert_operation : OperationRow → Store → Result Fault Store
insert_operation row s =
    if any (λ r. r.id == row.id) s.operations
    then err integrity_error
    else ok (record s { operations = s.operations ++ row ∷ [] })

unfoldable pub create_operation :
    ℕ → OperationRow → Option String → Store → Result Fault (Option OperationRow × Store)
unfolding idempotent_lookup truthy insert_operation insert_key get_operation
create_operation now row idem s = elim (truthy (idempotent_lookup idem row.kind s)) [
  | some existing ↦ ok (get_operation existing s, s)
  | none ↦ do
    s1 ← insert_operation row s
    s2 ← insert_key now idem row.kind row.id s1
    ok (get_operation row.id s2, s2)
]

abbrev pub mark_done : OperationRow → OperationRow
mark_done r = record r { done = true }

unfoldable pub finish_lifecycle :
    ℕ → String → String → String → Store → Result Fault (Option OperationRow × Store)
unfolding get_operation set_session_state state_event update
finish_lifecycle now op_id sid state s = elim (get_operation op_id s) [
  | none ↦ err type_error
  | some op ↦
      if op.done
      then ok (some op, s)
      else let s1 = set_session_state sid state s in
        let s2 = record s1 { operations = update (λ r. r.id == op_id) mark_done s1.operations } in
        let s3 = state_event now sid state (some op_id) s2 in ok (get_operation op_id s3, s3)
]

unfoldable pub max_seq : String → List EventRow → ℕ
max_seq sid [] = 0
max_seq sid (e ∷ es) =
    let rest = max_seq sid es in if e.session_id == sid then max e.seq rest else rest

unfoldable pub current_max_cursor : String → Store → ℕ
unfolding max_seq
current_max_cursor sid s = max_seq sid s.events

abbrev pub take : {A : Type 0} → ℕ → List A → List A
take zero xs = []
take (suc n) [] = []
take (suc n) (x ∷ xs) = x ∷ take n xs

-- Rows stand in the order of their sequence numbers, which is the order of insertion.
unfoldable pub read_events : String → ℕ → ℕ → Store → List EventRow
read_events sid after limit s =
    take limit (keep (λ e. e.session_id == sid && ltb after e.seq) s.events)

unfoldable pub insert_artifact : ArtifactRow → Store → Result Fault Store
insert_artifact row s =
    if any (λ r. r.id == row.id) s.artifacts
    then err integrity_error
    else ok (record s { artifacts = s.artifacts ++ row ∷ [] })

unfoldable pub get_artifact : String → Store → Option ArtifactRow
unfolding fetch
get_artifact id s = fetch (λ r. r.id == id) s.artifacts

unfoldable pub list_sessions : Option String → Store → List SessionRow
unfolding truthy order_by
list_sessions app s = elim (truthy app) [
  | none ↦ order_by (λ r. r.created_at) s.sessions
  | some a ↦ order_by (λ r. r.created_at) (keep (λ r. r.app == a) s.sessions)
]

unfoldable pub list_artifacts : String → Store → List ArtifactRow
unfolding order_by
list_artifacts sid s = order_by (λ r. r.created_at) (keep (λ r. r.session_id == sid) s.artifacts)
