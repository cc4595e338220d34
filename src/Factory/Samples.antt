-- ===== src/Factory/Samples.antt =====
-- apps/factory/barista_app_factory: missions on which the coordinator runs.

use barista_apps.Prelude.{
  ℕ, ◌+◌, ◌*◌, ◌≤◌, String, true, false, none, some, List, [], ◌∷◌, ◌≡◌, refl, ◌⊎◌, All,
}
use barista_apps.Prelude.Dict.{Dict, find, assign}
use barista_apps.Prelude.Result.{ok, err}
use barista_apps.Mission.{Task, Mission, Permissions}
use barista_apps.Factory.State.{
  MissionState, MissionStatus, TaskState, Status, is_pending, new_task, to_dict, open_state,
  summary,
}
use barista_apps.Factory.Grants.{WorkerGrant, worker_actions, derive_worker_grant}
use barista_apps.Factory.Credential.{
  Keeper, Refreshed, granted, answered, Supports, refresh_margin_seconds, ensure_fresh,
}
use barista_apps.Factory.Graph.{has_status, blocker, mark_one, block, mark_unreachable}
use barista_apps.Factory.Host.{Fault, Host, Coord, with_task}
use barista_apps.Factory.Worker.{
  begun, harvest_then_reap, collect_output, register_receipt, ensure_coordinator_session, non_empty,
}
use barista_apps.Factory.Unreachable.{IsMarked, mark_unreachable-IsMarked}
use barista_apps.Factory.Settled.{InOrder, IsSettled, mark_unreachable-IsSettled}
use barista_apps.Factory.Restart.{Known, IsReopened, open_state-IsReopened, summary-total, or_zero}
use barista_apps.Factory.Pool.{fill, submit, next_task}
use barista_apps.Factory.Graph.{ready}
use barista_apps.Factory.Filled.{IsFilled, fill-IsFilled}
use barista_apps.Prelude.{arith}
use barista_apps.Factory.Margin.{IsChecked, ensure_fresh-IsChecked, refresh_margin_seconds-bounds}
use barista_apps.Factory.Harvest.{IsHarvested, harvested, harvest_then_reap-IsSafe}
use barista_apps.Factory.Recovery.{begun-IsResumed, IsDerived, derive_worker_grant-IsDerived}

abbrev task : String → List String → Task
task id depends_on = record {
  id = id;
  command = some ("make" ∷ []);
  prompt = none;
  check = none;
  collect = true;
  env = [];
  workdir = none;
  depends_on = depends_on;
  produces = [];
  consumes = [];
  files = [];
}

abbrev failed_first : Dict TaskState
failed_first =
    ("a", record (new_task "a") { state = Status.failed })
    ∷ ("b", new_task "b")
    ∷ ("c", new_task "c")
    ∷ ("d", new_task "d")
    ∷ []

abbrev chain : List Task
chain = task "a" [] ∷ task "b" ("a" ∷ []) ∷ task "c" ("b" ∷ []) ∷ task "d" ("c" ∷ []) ∷ []

chain-InOrder : InOrder chain
chain-InOrder = (
  (refl, (refl, (refl, (refl, tt)))),
  ((refl, (refl, (refl, tt))), ((refl, (refl, tt)), ((refl, tt), tt))),
)

mark_unreachable-IsSettled_example : All (IsSettled (mark_unreachable chain failed_first)) chain
mark_unreachable-IsSettled_example = mark_unreachable-IsSettled chain failed_first chain-InOrder

mark_unreachable-IsMarked_example :
    IsMarked chain failed_first (mark_unreachable chain failed_first) "d"
mark_unreachable-IsMarked_example = mark_unreachable-IsMarked chain failed_first "d"

-- The same tasks, each listed before its dependency.
abbrev reversed : List Task
reversed = task "d" ("c" ∷ []) ∷ task "c" ("b" ∷ []) ∷ task "b" ("a" ∷ []) ∷ task "a" [] ∷ []

-- The two passes that the scheduler makes after the failure leave the last task pending.
two_passes :
    has_status is_pending (mark_unreachable reversed (mark_unreachable reversed failed_first)) "d"
    ≡ true
unfolding mark_unreachable mark_one has_status blocker block find assign
two_passes = refl

abbrev mission_state : MissionState
mission_state = record {
  mission = "demo";
  coordinator_session_id = some "c1";
  state = MissionStatus.lost_authority;
  started_at = some "t0";
  finished_at = none;
  authority_lost = some "expired";
  credential = none;
  tasks = failed_first;
}

open_state-IsReopened_example :
    IsReopened mission_state
      ("a" ∷ "e" ∷ [])
      (open_state "t1" (some (to_dict mission_state)) "demo" ("a" ∷ "e" ∷ []))
open_state-IsReopened_example = open_state-IsReopened "t1" "demo" ("a" ∷ "e" ∷ []) mission_state

summary-total_example :
    (summary mission_state).total
    ≡ (summary mission_state).ok
      + (summary mission_state).failed
      + (summary mission_state).pending
      + or_zero (summary mission_state).blocked
summary-total_example = summary-total mission_state

begun-Known : Known (with_task "b" (begun "w" (new_task "b")) mission_state).tasks ("b" ∷ [])
unfolding find assign
begun-Known = ((begun "w" (new_task "b"), refl), tt)

begun-IsResumed_example :
    (u : TaskState) × (find
        (open_state "t1"
          (some (to_dict (with_task "b" (begun "w" (new_task "b")) mission_state)))
          "demo"
          ("b" ∷ [])).tasks
        "b"
      ≡ some u)
    × (u.state ≡ Status.running)
    × ((begun "w" u).attempts ≡ (begun "w" (new_task "b")).attempts)
begun-IsResumed_example =
    begun-IsResumed "t1" "demo" "w" "w" "b" ("b" ∷ []) (new_task "b") mission_state begun-Known

refresh_margin_seconds-bounds_example :
    (refresh_margin_seconds 900 ≤ 900 * 5)
    × (1 ≤ 900 → 1 ≤ refresh_margin_seconds 900)
    × (120 ≤ 900 → 600 ≤ refresh_margin_seconds 900)
    × (300 ≤ 900 → refresh_margin_seconds 900 ≡ 900 * 2)
refresh_margin_seconds-bounds_example = refresh_margin_seconds-bounds 900

abbrev keeper : Keeper
keeper = record {
  margin_override = none;
  active = true;
  inactive_reason = none;
  lifetime_seconds = some 900;
  expires_at = some 1000;
  refreshes = 1;
  lost_authority = none;
}

abbrev advertises : ℕ → Supports
advertises n = answered true

abbrev grants : ℕ → Refreshed × ℕ
grants n = (granted (some (n + 900)), n + 1)

ensure_fresh-IsChecked_example :
    IsChecked advertises grants 900 keeper 5
      (ensure_fresh advertises grants 900 keeper 5).0
      (ensure_fresh advertises grants 900 keeper 5).1.0
      (ensure_fresh advertises grants 900 keeper 5).1.1
ensure_fresh-IsChecked_example = ensure_fresh-IsChecked advertises grants 900 keeper 5

abbrev permissions : Permissions
permissions = record {
  secrets = some (record { name = "TOKEN"; ref = "secret://vault/token" } ∷ []);
  egress = record { egress = none; allow = none };
}

abbrev worker_grant : WorkerGrant
worker_grant = record {
  actions = worker_actions;
  secret_refs = ("TOKEN", "secret://vault/token") ∷ [];
  egress = permissions.egress;
}

derive_worker_grant-IsDerived_example : IsDerived permissions (derive_worker_grant permissions)
derive_worker_grant-IsDerived_example = derive_worker_grant-IsDerived permissions

-- A world that notes the calls made of it.
abbrev noting : Host (List String)
noting = record {
  ensure_session = λ app name key env h. (ok "worker", "ensure" ∷ h);
  exec = λ id command env workdir timeout h. (ok "op", "exec" ∷ h);
  wait_operation = λ id timeout h. (ok (record { done = true; exit_code = some 0 }), h);
  delete_session = λ id key h. (ok tt, "delete" ∷ h);
  register_artifact = λ id a h. (ok "artifact", "register" ∷ h);
  write_file = λ id path content h. (ok "digest", "write" ∷ h);
  read_file = λ id path h. (ok "content", "read" ∷ h);
  ensure_fresh = λ h. (ok tt, h);
  authority_lost = λ h. none;
  credential_status = λ h. record {
    active = false;
    refreshes = 0;
    lifetime_seconds = none;
    margin_seconds = none;
    inactive_reason = none;
  };
}

abbrev mission : Mission
mission = record {
  name = "demo";
  app = "worker";
  tasks = chain;
  concurrency = 2;
  strict_gates = false;
  task_timeout_s = 3600;
  max_attempts = 2;
  deadline_s = none;
  budget = record { max_workers = none; max_exec_seconds = none };
  permissions = permissions;
  notify_url = none;
}

abbrev coordinator : Coord (List String)
coordinator = record { state = mission_state; saved = none; host = [] }

harvest_then_reap-IsSafe_example :
    ((c' : Coord (List String)) × IsHarvested noting mission worker_grant none "t2"
        (task "b" ("a" ∷ []))
        0
        []
        c'
      × (harvested noting mission worker_grant none "t2" (task "b" ("a" ∷ [])) "w" 0 [] coordinator
          ≡ (ok tt, c'))
      × (harvest_then_reap noting mission worker_grant none "t2"
            (task "b" ("a" ∷ []))
            "w"
            0
            []
            coordinator
          ≡ (ok tt, record c' { host = "delete" ∷ c'.host })))
    ⊎ ((e : Fault) × (c' : Coord (List String)) × (harvested noting mission worker_grant none "t2"
            (task "b" ("a" ∷ []))
            "w"
            0
            []
            coordinator
          ≡ (err e, c'))
        × (harvest_then_reap noting mission worker_grant none "t2"
              (task "b" ("a" ∷ []))
              "w"
              0
              []
              coordinator
            ≡ (err e, c')))
harvest_then_reap-IsSafe_example =
    harvest_then_reap-IsSafe noting mission worker_grant none "t2" (task "b" ("a" ∷ [])) "w" 0 []
      coordinator

-- The receipt is registered before the worker is deleted.
harvest_run :
    (harvest_then_reap noting mission worker_grant none "t2"
      (task "b" ("a" ∷ []))
      "w"
      0
      []
      coordinator).0
    ≡ ok tt
unfolding harvest_then_reap collect_output register_receipt ensure_coordinator_session non_empty
    find
harvest_run = refl

harvest_order :
    (harvest_then_reap noting mission worker_grant none "t2"
      (task "b" ("a" ∷ []))
      "w"
      0
      []
      coordinator).1.host
    ≡ "delete" ∷ "register" ∷ "exec" ∷ []
unfolding harvest_then_reap collect_output register_receipt ensure_coordinator_session non_empty
    find
harvest_order = refl

fill-IsFilled_example : IsFilled 2 chain failed_first [] (fill 2 chain failed_first [])
fill-IsFilled_example = fill-IsFilled 2 chain failed_first [] (omega arith)

two_started :
    fill 2 (task "x" [] ∷ task "b" [] ∷ task "c" [] ∷ task "d" [] ∷ []) failed_first []
    ≡ "b" ∷ "c" ∷ []
unfolding fill submit next_task ready has_status find
two_started = refl
