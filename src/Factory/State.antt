-- ===== src/Factory/State.antt =====
-- apps/factory/barista_app_factory/state.py: `MissionState`, what is saved of it, and its summary.
-- A document of the state file keeps absent keys as `none`, and its conversion to JSON and back is left
-- out; times are texts.
use barista_apps.Prelude.{
  ℕ, suc, ◌+◌, String, Bool, true, false, Option, none, some, List, [], ◌∷◌, ◌==◌, number_equality,
  if◌then◌else◌, length,
}
use barista_apps.Prelude.Dict.{Dict, find, assign}

pub data Status : Type 0 where
  pending running ok failed blocked : Status

pub data MissionStatus : Type 0 where
  running done lost_authority : MissionStatus

pub record CheckResult : Type 0 where
  pub command : List String
  pub exit_code : ℕ

pub record Receipt : Type 0 where
  pub mission : String
  pub task : String
  pub worker : Option String
  pub outcome : Status
  pub attempts : ℕ
  pub exit_code : ℕ
  pub checks : List CheckResult
  pub harvested : Bool
  pub completed_at : String

-- What a task leaves: a receipt, or the text of an exception.
pub data Evidence : Type 0 where
  receipt : Receipt → Evidence
  raised : String → Evidence

pub record TaskState : Type 0 where
  pub id : String
  pub state : Status
  pub worker : Option String
  pub attempts : ℕ
  pub exit_code : Option ℕ
  pub receipt_artifact_id : Option String
  pub receipt : Option Evidence
  pub blocked_by : Option String
  pub outputs : Dict String

-- What `CredentialKeeper.status` reports.
pub record CredentialStatus : Type 0 where
  pub active : Bool
  pub refreshes : ℕ
  pub lifetime_seconds : Option ℕ
  pub margin_seconds : Option ℕ
  pub inactive_reason : Option String

pub record MissionState : Type 0 where
  pub mission : String
  pub coordinator_session_id : Option String
  pub state : MissionStatus
  pub started_at : Option String
  pub finished_at : Option String
  pub authority_lost : Option String
  pub credential : Option CredentialStatus
  pub tasks : Dict TaskState

pub record StateDocument : Type 0 where
  pub mission : String
  pub coordinator_session_id : Option String
  pub state : Option MissionStatus
  pub started_at : Option String
  pub finished_at : Option String
  pub authority_lost : Option String
  pub credential : Option CredentialStatus
  pub tasks : Option (Dict TaskState)

abbrev pub new_task : String → TaskState
new_task id = record {
  id = id;
  state = Status.pending;
  worker = none;
  attempts = 0;
  exit_code = none;
  receipt_artifact_id = none;
  receipt = none;
  blocked_by = none;
  outputs = [];
}

unfoldable pub to_dict : MissionState → StateDocument
to_dict s = record {
  mission = s.mission;
  coordinator_session_id = s.coordinator_session_id;
  state = some s.state;
  started_at = s.started_at;
  finished_at = s.finished_at;
  authority_lost = s.authority_lost;
  credential = s.credential;
  tasks = some s.tasks;
}

unfoldable pub resumed : Option MissionStatus → MissionStatus
resumed none = MissionStatus.running
resumed (some MissionStatus.lost_authority) = MissionStatus.running
resumed (some MissionStatus.running) = MissionStatus.running
resumed (some MissionStatus.done) = MissionStatus.done

unfoldable pub from_dict : StateDocument → MissionState
unfolding resumed
from_dict d = record {
  mission = d.mission;
  coordinator_session_id = d.coordinator_session_id;
  state = resumed d.state;
  started_at = d.started_at;
  finished_at = d.finished_at;
  authority_lost = none;
  credential = d.credential;
  tasks = elim d.tasks [ none ↦ [] | some ts ↦ ts ];
}

-- state.tasks.setdefault(tid, TaskState(id=tid)), for each of the identifiers
unfoldable pub add_missing : List String → Dict TaskState → Dict TaskState
add_missing [] ts = ts
add_missing (id ∷ ids) ts =
    add_missing ids (elim (find ts id) [ none ↦ assign ts id (new_task id) | some _ ↦ ts ])

-- {tid: TaskState(id=tid) for tid in task_ids}
unfoldable pub new_tasks : List String → Dict TaskState → Dict TaskState
new_tasks [] ts = ts
new_tasks (id ∷ ids) ts = new_tasks ids (assign ts id (new_task id))

-- `MissionState.open`, where the file's document is given if there is a file.
unfoldable pub open_state : String → Option StateDocument → String → List String → MissionState
unfolding from_dict add_missing new_tasks
open_state now (some d) mission ids =
    let s = from_dict d in record s { tasks = add_missing ids s.tasks }
open_state now none mission ids = record {
  mission = mission;
  coordinator_session_id = none;
  state = MissionStatus.running;
  started_at = some now;
  finished_at = none;
  authority_lost = none;
  credential = none;
  tasks = add_missing ids (new_tasks ids []);
}

abbrev pub is_ok : Status → Bool
is_ok Status.ok = true
is_ok _ = false

abbrev pub is_pending : Status → Bool
is_pending Status.pending = true
is_pending _ = false

abbrev pub is_running : Status → Bool
is_running Status.running = true
is_running _ = false

abbrev pub is_failed : Status → Bool
is_failed Status.failed = true
is_failed _ = false

abbrev pub is_blocked : Status → Bool
is_blocked Status.blocked = true
is_blocked _ = false

-- states.count(state)
unfoldable pub count : (Status → Bool) → Dict TaskState → ℕ
count p [] = 0
count p ((_, t) ∷ ts) = let rest = count p ts in if p t.state then suc rest else rest

pub record Summary : Type 0 where
  pub total : ℕ
  pub ok : ℕ
  pub failed : ℕ
  pub pending : ℕ
  -- left out of the dictionary where it is zero
  pub blocked : Option ℕ

unfoldable pub summary : MissionState → Summary
unfolding count
summary s = record {
  total = length s.tasks;
  ok = count is_ok s.tasks;
  failed = count is_failed s.tasks;
  pending = count is_pending s.tasks + count is_running s.tasks;
  blocked = if count is_blocked s.tasks == 0 then none else some (count is_blocked s.tasks);
}
