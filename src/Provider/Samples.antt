-- ===== src/Provider/Samples.antt =====
-- providers/local/barista_local_provider: stores and requests on which the provider runs.
use barista_apps.Prelude.{
  arith, List, ℕ, suc, String, true, false, Option, none, some, [], ◌∷◌, ◌++◌, ◌≡◌, ◌≢◌, refl,
  text_equality,
}
use barista_apps.Prelude.Result.{ok}
use barista_apps.Provider.Rows.{SessionRow, EventRow, stdout, state_changed, InstanceRequest}
use barista_apps.Provider.Store
use barista_apps.Provider.Store.{Store, Reservation, mark_done}
use barista_apps.Prelude.Tables.{update, fetch, truthy}
use barista_apps.Provider.Node.{NodeClient}
use barista_apps.Provider.Handlers.{World, reply, exec_body}
use barista_apps.Provider.Operations
use barista_apps.Provider.Handlers
use barista_apps.Provider.Handlers.{
  error, app_body, capability_unsupported, auth_middleware, authorized,
}
use barista_apps.Provider.Finished.{IsFinished, finish_lifecycle-IsFinished}
use barista_apps.Provider.Access.{
  IsInstalled, MayPass, auth_middleware-eq-none, install_app-IsGranted,
}
use barista_apps.Provider.Rows.{AppManifest, AppRow}
use barista_apps.Prelude.{Subset, contains, ◌||◌, ◌&&◌, ◌↔◌, ◌⊎◌, false, true}
use barista_apps.Provider.Operations.{ExecRequest, operation}
use barista_apps.Provider.Journal.{IsJournal, append_event-IsJournal, read_events-append_event}
use barista_apps.Provider.Resume.{resume_point, read_events-resume}
use barista_apps.Provider.Deletion.{delete_session-IsGone}
use barista_apps.Provider.Retries.{reserve_creation-IsIdempotent, finish_lifecycle-IsIdempotent}
use barista_apps.Provider.Exec.{exec_session-IsIdempotent}

abbrev request : InstanceRequest
request = record {
  instance_id = "node-1";
  image = "registry/demo";
  digest = "sha256:1";
  arch = "amd64";
  start_cmd = "run" ∷ [];
  env = [];
  workdir = none;
}

abbrev session : SessionRow
session = record {
  id = "s1";
  name = none;
  app = "demo";
  node_instance_id = "node-1";
  state = "running";
  created_at = 1;
  parent_session_id = none;
  metadata = "{}";
}

abbrev event : ℕ → String → EventRow
event n sid = record {
  seq = n;
  session_id = sid;
  operation_id = none;
  time = n;
  body = state_changed "running";
}

abbrev store : Store
store = record {
  apps = [];
  sessions = session ∷ [];
  keys = record { key = "k0"; kind = "ensure"; resource_id = "s1"; created_at = 1 } ∷ [];
  operations = operation "op1" "pause" false "s1" ∷ [];
  events = event 1 "s1" ∷ event 2 "s2" ∷ event 4 "s1" ∷ [];
  last_seq = 4;
  pending = [];
  artifacts = [];
}

store-IsJournal : IsJournal store
unfolding IsJournal
store-IsJournal = (
  (omega arith, (omega arith, (omega arith, tt))),
  (omega arith, (omega arith, (omega arith, tt))),
)

append_event-IsJournal_example : IsJournal (Store.append_event 9 "s1" (stdout []) none store).1
append_event-IsJournal_example =
    append_event-IsJournal 9 "s1" (stdout []) none store store-IsJournal

read_events-append_event_example :
    Store.read_events "s1"
      (Store.current_max_cursor "s1" store)
      10
      (Store.append_event 9 "s1" (stdout []) none store).1
    ≡ record { seq = 5; session_id = "s1"; operation_id = none; time = 9; body = stdout [] } ∷ []
read_events-append_event_example =
    read_events-append_event 9 "s1" "s1" (stdout []) none 9 store store-IsJournal

read_events-resume_example :
    Store.read_events "s1" 0 1 store
      ++ Store.read_events "s1" (resume_point 0 (Store.read_events "s1" 0 1 store)) 5 store
    ≡ Store.read_events "s1" 0 6 store
read_events-resume_example = read_events-resume "s1" 1 5 0 store store-IsJournal

delete_session-IsGone_example :
    (Store.get_session "s1" (Store.delete_session "s1" store) ≡ none)
    × (Store.pending_creation "s1" (Store.delete_session "s1" store) ≡ none)
    × ((key : Option String) (kind : String)
        → Store.idempotent_lookup key kind (Store.delete_session "s1" store) ≢ some "s1")
    × ((other : String)
        → other ≢ "s1"
        → Store.get_session other (Store.delete_session "s1" store) ≡ Store.get_session other store)
delete_session-IsGone_example = delete_session-IsGone "s1" store

abbrev reservation : String → Reservation
reservation sid = record {
  sid = sid;
  app = "demo";
  name = none;
  metadata = "{}";
  request = request;
}

run : Unit {0}
unfolding Store.reserve_creation Store.idempotent_lookup truthy fetch Store.insert_reservation
    Store.insert_session Store.insert_pending Store.insert_key Store.reserved_row Store.get_session
    Store.finish_lifecycle Store.get_operation Store.set_session_state update Store.state_event
    Store.append_event Operations.exec_session Operations.run_exec Operations.record_exec
    Operations.finish_exec Operations.output_events Store.node_instance_id Store.create_operation
    Store.insert_operation Store.idempotent_record Store.current_max_cursor Store.max_seq
run = tt

abbrev reserved : Store
reserved = record store {
  sessions =
      session
      ∷ record {
        id = "s9";
        name = none;
        app = "demo";
        node_instance_id = "node-1";
        state = "creating";
        created_at = 7;
        parent_session_id = none;
        metadata = "{}";
      }
      ∷ [];
  keys = record { key = "k9"; kind = "ensure"; resource_id = "s9"; created_at = 7 } ∷ store.keys;
  pending = record { session_id = "s9"; request = request } ∷ [];
}

reserve_run :
    Store.reserve_creation 7 (reservation "s9") (some "k9") store
    ≡ ok (Store.get_session "s9" reserved, reserved)
unfolding run
reserve_run = refl

reserve_creation-IsIdempotent_example :
    Store.reserve_creation 8 (reservation "s10") (some "k9") reserved
    ≡ ok (Store.get_session "s9" reserved, reserved)
reserve_creation-IsIdempotent_example =
    reserve_creation-IsIdempotent 7 8 (reservation "s9") (reservation "s10") "k9"
      (Store.get_session "s9" reserved) store reserved refl refl reserve_run

abbrev paused : Store
paused = record store {
  sessions = record session { state = "paused" } ∷ [];
  operations = record (operation "op1" "pause" false "s1") { done = true } ∷ [];
  events =
      store.events
      ++ record {
        seq = 5;
        session_id = "s1";
        operation_id = some "op1";
        time = 9;
        body = state_changed "paused";
      }
        ∷ [];
  last_seq = 5;
}

pause_run :
    Store.finish_lifecycle 9 "op1" "s1" "paused" store
    ≡ ok (some (record (operation "op1" "pause" false "s1") { done = true }), paused)
unfolding run
pause_run = refl

finish_lifecycle-IsIdempotent_example :
    Store.finish_lifecycle 10 "op1" "s1" "running" paused
    ≡ ok (some (record (operation "op1" "pause" false "s1") { done = true }), paused)
finish_lifecycle-IsIdempotent_example =
    finish_lifecycle-IsIdempotent 9 10 "op1" "s1" "paused" "running"
      (some (record (operation "op1" "pause" false "s1") { done = true })) store paused pause_run

op1_found : Store.get_operation "op1" store ≡ some (operation "op1" "pause" false "s1")
unfolding run
op1_found = refl

finish_lifecycle-IsFinished_example :
    IsFinished 9 "op1" "s1" "paused" store (Store.finish_lifecycle 9 "op1" "s1" "paused" store)
finish_lifecycle-IsFinished_example =
    finish_lifecycle-IsFinished 9 "op1" "s1" "paused" store store-IsJournal

-- A node that answers each execution with the number of those before it.
abbrev counting : NodeClient ℕ
counting = record {
  node_info = λ n. record {
    pause_resume = true;
    memory_snapshot = false;
    disk_snapshot = false;
    cow_fork = false;
    guest_agent = true;
  };
  create_and_start =
      λ q n. (ok (record { instance_id = q.instance_id; state = "running"; ready = true }), suc n);
  lookup_instance = λ id n. ok none;
  destroy = λ id n. (ok tt, suc n);
  pause = λ id key n. (ok tt, suc n);
  resume = λ id key n. (ok tt, suc n);
  exec = λ id command env workdir timeout n.
      (ok (record { exit_code = n; stdout = n ∷ []; stderr = [] }), suc n);
}

abbrev world : World ℕ
world = record { store = store; node = 3 }

abbrev command : ExecRequest
command = record {
  command = "ls" ∷ [];
  env = [];
  working_dir = none;
  timeout_seconds = none;
  key = some "k3";
}

abbrev executed : World ℕ
executed = (Operations.exec_session counting [] 9 "op3" "s1" command world).1

exec_run :
    Operations.exec_session counting [] 9 "op3" "s1" command world
    ≡ (reply 200 (exec_body "op3" (some 4)), executed)
unfolding run
exec_run = refl

exec_session-IsIdempotent_example :
    Operations.exec_session counting [] 12 "op4" "s1" command executed
    ≡ (reply 200 (exec_body "op3" (some 4)), executed)
exec_session-IsIdempotent_example =
    exec_session-IsIdempotent counting [] 9 12 "op3" "op4" "s1" "k3" "op3" (some 4) command world
      executed refl refl exec_run

auth_middleware-eq-none_example :
    (auth_middleware (some "t0") "/v1alpha1/sessions" (some "Bearer t1") ≡ none)
    ↔ MayPass (some "t0") "/v1alpha1/sessions" (some "Bearer t1")
auth_middleware-eq-none_example =
    auth_middleware-eq-none (some "t0") "/v1alpha1/sessions" (some "Bearer t1")

stopped :
    auth_middleware (some "t0") "/v1alpha1/sessions" (some "Bearer t1")
    ≡ some (error 401 "authentication" "unauthorized" false)
unfolding auth_middleware authorized truthy
stopped = refl

abbrev manifest : AppManifest
manifest = record {
  name = "demo";
  version = "1";
  workload = record {
    image = "registry/demo";
    digest = "sha256:1";
    architecture = "amd64";
    entrypoint = "run" ∷ [];
    working_dir = none;
  };
  required = "session.exec" ∷ [];
  optional = "session.pause_resume" ∷ [];
}

abbrev offered : List String
offered = "session.exec" ∷ "session.snapshot.exact" ∷ []

install_app-IsGranted_example :
    (Subset manifest.required offered
      × ((row : AppRow) × (s : Store) × (Handlers.install_app counting offered 5 manifest world
            ≡ (reply 201 (app_body row), record world { store = s }))
          × IsInstalled 5 manifest world.store row s
          × ((c : String)
              → contains row.granted_capabilities c ≡ (
                  (contains manifest.required c || contains manifest.optional c)
                  && contains offered c))))
    ⊎ ((Subset manifest.required offered → ⊥)
        × (Handlers.install_app counting offered 5 manifest world
            ≡ (capability_unsupported, world)))
install_app-IsGranted_example = install_app-IsGranted counting offered 5 manifest world
