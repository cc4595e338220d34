-- ===== src/Factory/Host.antt =====
-- apps/factory/barista_app_factory/coordinator.py: what the coordinator asks of the provider
-- through the SDK, of the file transfer over it and of its credential, and the coordinator's own
-- state. A call answers or raises, and may change the state of the world in both cases.
use barista_apps.Prelude.{ℕ, String, Bool, Option, none, some, List}
use barista_apps.Prelude.Dict.{Dict, find, assign}
use barista_apps.Prelude.Result.{Result, ok, err}
use barista_apps.Prelude.Action.{Action}
use barista_apps.Factory.State.{
  CredentialStatus, MissionState, StateDocument, Receipt, TaskState, Summary, to_dict,
}

pub data Fault : Type 0 where
  lost_authority authentication other : String → Fault

pub record Operation : Type 0 where
  pub done : Bool
  pub exit_code : Option ℕ

-- What is registered: an output of a task, a receipt, or the result of the mission.
pub data Content : Type 0 where
  output : String → Content
  task_receipt : Receipt → Content
  mission_result : Summary → Content

pub record Artifact : Type 0 where
  pub name : String
  pub content : Content
  pub idempotency_key : String

pub record Host (H : Type 0) : Type 0 where
  pub ensure_session : String → String → String → Dict String → H → Result Fault String × H
  pub exec :
      String → List String → Dict String → Option String → Option ℕ → H → Result Fault String × H
  pub wait_operation : String → ℕ → H → Result Fault Operation × H
  pub delete_session : String → String → H → Result Fault (Unit {0}) × H
  pub register_artifact : String → Artifact → H → Result Fault String × H
  pub write_file : String → String → String → H → Result Fault String × H
  pub read_file : String → String → H → Result Fault String × H
  pub ensure_fresh : H → Result Fault (Unit {0}) × H
  pub authority_lost : H → Option String
  pub credential_status : H → CredentialStatus

-- The coordinator: its state, the state file, and the world.
pub record Coord (H : Type 0) : Type 0 where
  pub state : MissionState
  pub saved : Option StateDocument
  pub host : H

-- A method of the coordinator.
abbrev pub Run : Type 0 → Type 0 → Type 0
Run H A = Action Fault (Coord H) A

-- A call of the provider.
abbrev pub call : {H A : Type 0} → (H → Result Fault A × H) → Run H A
call f c = ((f c.host).0, record c { host = (f c.host).1 })

abbrev pub modify : {H : Type 0} → (MissionState → MissionState) → Run H (Unit {0})
modify f c = (ok tt, record c { state = f c.state })

-- `self.state.save()`
abbrev pub save : {H : Type 0} → Run H (Unit {0})
save c = (ok tt, record c { saved = some (to_dict c.state) })

-- `self.state.tasks[id]`
abbrev pub task_state : {H : Type 0} → String → Run H TaskState
task_state id c = elim (find c.state.tasks id) [
  | none ↦ (err (other "KeyError"), c)
  | some ts ↦ (ok ts, c)
]

abbrev pub with_task : String → TaskState → MissionState → MissionState
with_task id ts s = record s { tasks = assign s.tasks id ts }

abbrev pub put_task : {H : Type 0} → String → TaskState → Run H (Unit {0})
put_task id ts = modify (with_task id ts)
