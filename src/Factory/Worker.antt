-- ===== src/Factory/Worker.antt =====
-- apps/factory/barista_app_factory/coordinator.py: `run_task` and what it calls. The texts of the
-- clock are arguments.
use Prim.Native.String.{◌++◌ as append}
use barista_apps.Prelude.{
  ◌==◌, text_equality, ℕ, suc, String, Bool, true, false, not, ◌&&◌, Option, none, some, List, [],
  ◌∷◌, number_equality, if◌then◌else◌, is_empty, ltb, eqb,
}
use barista_apps.Prelude.Dict.{Dict, find, assign}
use barista_apps.Prelude.Text.{decimal}
use barista_apps.Prelude.Result.{Result, ok, err}
use barista_apps.Mission.{Task, Mission, worker_command, by_id, MissionError}
use barista_apps.Factory.State.{TaskState, Receipt, CheckResult, receipt, Status, is_ok, is_running}
use barista_apps.Factory.Grants.{WorkerGrant, env}
use barista_apps.Prelude.Action.{pure, raise, ◌>>=◌, ◌>>◌}
use barista_apps.Factory.Host.{
  Artifact, lost_authority, other, Operation, output, task_receipt, Host, Run, call, modify, save,
  task_state, put_task,
}

-- `{**base, **more}`
unfoldable pub merged : Dict String → Dict String → Dict String
merged base [] = base
merged base ((k, v) ∷ more) = merged (assign base k v) more

abbrev pub or_one : Option ℕ → ℕ
or_one none = 1
or_one (some n) = n

-- `if text:`
unfoldable pub non_empty : Option String → Option String
non_empty none = none
non_empty (some s) = if s == "" then none else some s

-- A task that is found in flight keeps its attempt; a new run counts.
unfoldable pub begun : String → TaskState → TaskState
begun worker ts = record ts {
  state = Status.running;
  worker = some worker;
  attempts =
      if is_running ts.state && not (eqb ts.attempts 0) then ts.attempts else suc ts.attempts;
}

-- {name: dep for dep in task.depends_on for name in by_id[dep].produces}
unfoldable pub names_to : String → Dict String → Dict String → Dict String
names_to dep d [] = d
names_to dep d ((name, _) ∷ produces) = names_to dep (assign d name dep) produces

unfoldable pub producers : List Task → List String → Dict String → Option (Dict String)
unfolding names_to
producers tasks [] d = some d
producers tasks (dep ∷ deps) d = elim (by_id tasks dep) [
  | none ↦ none
  | some t ↦ producers tasks deps (names_to dep d t.produces)
]

module _ {H : Type 0} (host : Host H) (mission : Mission) (grant : WorkerGrant)
    (scope : Option String) where
  abbrev pub remember_session : String → Run H String
  remember_session id = do
    modify (λ s. record s { coordinator_session_id = some id })
    save
    pure id

  -- `_ensure_coordinator_session`
  unfoldable pub ensure_coordinator_session : Run H String
  unfolding non_empty
  ensure_coordinator_session c = elim (non_empty c.state.coordinator_session_id) [
    | some id ↦ pure id c
    | none ↦ elim (non_empty scope) [
      | some id ↦ remember_session id c
      | none ↦
          (call (
                host.ensure_session mission.app (append mission.name "-coordinator")
                  (append mission.name ":coordinator") [])
              >>= remember_session)
            c
    ]
  ]

  -- `_checkpoint_authority`
  unfoldable pub checkpoint_authority : Run H (Unit {0})
  checkpoint_authority c = elim (host.authority_lost c.host) [
    | some reason ↦ raise (lost_authority reason) c
    | none ↦ call host.ensure_fresh c
  ]

  abbrev pub worker_name : Task → String
  worker_name t = append mission.name (append "-" t.id)

  -- `{mission}:{task}:{what}`
  abbrev pub task_key : Task → String → String
  task_key t what = append mission.name (append ":" (append t.id (append ":" what)))

  abbrev pub attempt_key : Task → ℕ → String
  attempt_key t n = task_key t (append "attempt-" (decimal n))

  abbrev pub staged : String → String → String
  staged id name =
      append "/factory/" (append mission.name (append "/" (append id (append "/" name))))

  -- `_plant`
  unfoldable pub plant : Dict String → String → Run H (Unit {0})
  plant [] worker = pure tt
  plant ((path, content) ∷ files) worker =
      call (host.write_file worker path content) >>= λ _. plant files worker

  unfoldable pub place_consumed : Dict String → String → String → Dict String → Run H (Unit {0})
  place_consumed from coord worker [] = pure tt
  place_consumed from coord worker ((name, dest) ∷ consumes) = elim (find from name) [
    | none ↦ raise (other "KeyError")
    | some producer ↦ call (host.read_file coord (staged producer name)) >>= λ content.
        call (host.write_file worker dest content) >>= λ _.
        place_consumed from coord worker consumes
  ]

  -- `_place_inputs`
  unfoldable pub place_inputs : Task → String → Run H (Unit {0})
  unfolding plant place_consumed producers ensure_coordinator_session
  place_inputs t worker = do
    plant t.files worker
    if is_empty t.consumes
        then pure tt
        else (ensure_coordinator_session >>= λ coord.
            elim (producers mission.tasks t.depends_on []) [
              | none ↦ raise (other "KeyError")
              | some from ↦ place_consumed from coord worker t.consumes
            ])

  abbrev pub record_output : String → String → String → Run H (Unit {0})
  record_output id name digest = do
    ts ← task_state id
    put_task id (record ts { outputs = assign ts.outputs name digest })
    save

  unfoldable pub capture_each : Task → String → String → Dict String → Run H (Unit {0})
  capture_each t coord worker [] = pure tt
  capture_each t coord worker ((name, path) ∷ produces) =
      call (host.read_file worker path) >>= λ raw.
      call (host.write_file coord (staged t.id name) raw) >>= λ digest.
      record_output t.id name digest >>= λ _.
      call (
        host.register_artifact coord (record {
          name = append t.id (append "-" name);
          content = output digest;
          idempotency_key = task_key t (append "out:" name);
        }))
      >>= λ _. capture_each t coord worker produces

  -- `_capture_outputs`
  unfoldable pub capture_outputs : Task → String → Run H (Unit {0})
  unfolding capture_each ensure_coordinator_session
  capture_outputs t worker =
      ensure_coordinator_session >>= λ coord. capture_each t coord worker t.produces

  unfoldable pub receipt_of : String → Task → TaskState → ℕ → List CheckResult → Status → Receipt
  receipt_of now t ts exit_code checks outcome = record {
    mission = mission.name;
    task = t.id;
    worker = ts.worker;
    outcome = outcome;
    attempts = ts.attempts;
    exit_code = exit_code;
    checks = checks;
    harvested = is_ok outcome && t.collect;
    completed_at = now;
  }

  abbrev pub settled : Receipt → String → Status → TaskState → TaskState
  settled r artifact outcome ts = record ts {
    receipt = some (receipt r);
    receipt_artifact_id = some artifact;
    state = outcome;
  }

  abbrev pub settle : Task → Receipt → Status → TaskState → String → Run H (Unit {0})
  settle t r outcome ts artifact = put_task t.id (settled r artifact outcome ts) >> save

  abbrev pub receipt_artifact : Task → Receipt → Artifact
  receipt_artifact t r = record {
    name = append "receipt-" (append t.id ".json");
    content = task_receipt r;
    idempotency_key = task_key t "receipt";
  }

  abbrev pub registered : Task → Receipt → Status → TaskState → String → Run H (Unit {0})
  registered t r outcome ts coord =
      call (host.register_artifact coord (receipt_artifact t r)) >>= settle t r outcome ts

  -- `_register_receipt`
  unfoldable pub register_receipt : String → Task → ℕ → List CheckResult → Status → Run H (Unit {0})
  unfolding ensure_coordinator_session receipt_of
  register_receipt now t exit_code checks outcome = task_state t.id >>= λ ts.
      ensure_coordinator_session
      >>= registered t (receipt_of now t ts exit_code checks outcome) outcome ts

  -- `except HostAPIError: pass`
  abbrev pub ignoring_faults : Run H (Unit {0}) → Run H (Unit {0})
  ignoring_faults m c = (ok tt, (m c).1)

  unfoldable pub collect_output : Task → String → Run H (Unit {0})
  collect_output t worker =
      if t.collect
      then (call (host.exec worker ("sh" ∷ "-c" ∷ "echo collected" ∷ []) [] none none) >>= λ handle.
          call (host.wait_operation handle 60) >>= λ _. pure tt)
      else pure tt

  -- `_harvest_then_reap`
  unfoldable pub harvest_then_reap :
      String → Task → String → ℕ → List CheckResult → Run H (Unit {0})
  unfolding collect_output register_receipt
  harvest_then_reap now t worker exit_code checks = do
    collect_output t worker
    register_receipt now t exit_code checks Status.ok
    ignoring_faults (call (host.delete_session worker (task_key t "reap")))

  -- The verdict and the checks that were run.
  unfoldable pub judge : Task → String → Bool → Run H (Bool × List CheckResult)
  unfolding plant
  judge t worker false = pure (false, [])
  judge t worker true = elim t.check [
    | none ↦ pure (true, [])
    | some [] ↦ pure (true, [])
    | some (c ∷ cs) ↦ plant t.files worker >>= λ _.
        call (host.exec worker (c ∷ cs) [] none none) >>= λ handle.
        call (host.wait_operation handle mission.task_timeout_s) >>= λ op. pure (
          op.done && eqb (or_one op.exit_code) 0,
          record { command = c ∷ cs; exit_code = or_one op.exit_code } ∷ [],
        )
  ]

  abbrev pub command_or_fault : Result MissionError (List String) → Run H (List String)
  command_or_fault (ok c) = pure c
  command_or_fault (err _) = raise (other "MissionError")

  -- What follows the verdict.
  unfoldable pub conclude : String → Task → String → ℕ → List CheckResult → Bool → Run H (Unit {0})
  unfolding checkpoint_authority harvest_then_reap register_receipt
  conclude now t worker exit_code checks passed = do
    ts ← task_state t.id
    put_task t.id (record ts { exit_code = some exit_code })
    if passed
        then (checkpoint_authority >> harvest_then_reap now t worker exit_code checks)
        else if ltb ts.attempts mission.max_attempts
        then (put_task t.id (record ts { exit_code = some exit_code; state = Status.pending })
            >> save)
        else register_receipt now t exit_code checks Status.failed

  abbrev pub run_command : Task → String → List String → Run H Operation
  run_command t worker command = do
    handle ← call (
        host.exec worker command (merged (env grant) t.env) t.workdir (some mission.task_timeout_s))
    call (host.wait_operation handle mission.task_timeout_s)

  unfoldable pub judged : String → Task → String → Operation → Run H (Unit {0})
  unfolding judge capture_outputs conclude
  judged now t worker op = do
    verdict ← judge t worker (op.done && eqb (or_one op.exit_code) 0)
    if verdict.0 && not (is_empty t.produces) then capture_outputs t worker else pure tt
    conclude now t worker (or_one op.exit_code) verdict.1 verdict.0

  -- `run_task`, from the attempt on.
  unfoldable pub attempt : String → Task → TaskState → Run H (Unit {0})
  unfolding begun place_inputs judged merged
  attempt now t ts = do
    put_task t.id (begun (worker_name t) ts)
    save
    worker ← call (
        host.ensure_session mission.app (worker_name t)
          (attempt_key t (begun (worker_name t) ts).attempts) (env grant))
    place_inputs t worker
    command ← command_or_fault (worker_command t)
    op ← run_command t worker command
    judged now t worker op

  -- `run_task`
  unfoldable pub run_task : String → Task → Run H (Unit {0})
  unfolding checkpoint_authority attempt
  run_task now t = do
    ts ← task_state t.id
    if is_ok ts.state then pure tt else (checkpoint_authority >> attempt now t ts)
