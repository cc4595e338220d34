-- ===== src/Factory/Coordinator.antt =====
-- apps/factory/barista_app_factory/coordinator.py: a task under guard, and how a mission begins and
-- ends around its schedule.
use Prim.Native.String.{◌++◌ as append}
use barista_apps.Prelude.{
  String, Bool, true, false, ◌&&◌, ◌||◌, Option, none, some, [], ◌∷◌, text_equality, if◌then◌else◌,
}
use barista_apps.Prelude.Dict.{Dict, find}
use barista_apps.Prelude.Result.{Result, ok, err}
use barista_apps.Mission.{Task, Mission}
use barista_apps.Factory.State.{
  MissionState, TaskState, MissionStatus, Status, raised, is_ok, is_failed, is_blocked, is_running,
  summary,
}
use barista_apps.Factory.Grants.{WorkerGrant}
use barista_apps.Prelude.Action.{pure, ◌>>=◌}
use barista_apps.Factory.Host.{
  Fault, lost_authority, authentication, other, mission_result, Host, Coord, Run, call, save,
  with_task,
}
use barista_apps.Factory.Worker.{run_task, ensure_coordinator_session}

module _ {H : Type 0} (host : Host H) (mission : Mission) (grant : WorkerGrant)
    (scope : Option String) where
  -- `_record_lost_authority`
  unfoldable pub record_lost_authority : String → String → Coord H → Coord H
  record_lost_authority now reason c =
      let s : MissionState = record c.state {
        state = MissionStatus.lost_authority;
        authority_lost = some reason;
        finished_at = some now;
        credential = some (host.credential_status c.host);
      } in
      (save (record c { state = s })).1

  -- `_blame_the_operator`
  unfoldable pub blame_the_operator : String → String → String → Coord H → Coord H
  unfolding record_lost_authority
  blame_the_operator now id reason c = elim (find c.state.tasks id) [
    | none ↦ record_lost_authority now reason c
    | some ts ↦
        if is_running ts.state
        then record_lost_authority now reason
            (record c { state = with_task id (record ts { state = Status.pending }) c.state })
        else record_lost_authority now reason c
  ]

  unfoldable pub mark_failed : String → String → Coord H → Coord H
  mark_failed id reason c = elim (find c.state.tasks id) [
    | none ↦ c
    | some ts ↦
        (save (record c {
          state =
              with_task id (record ts { state = Status.failed; receipt = some (raised reason) })
                c.state;
        })).1
  ]

  unfoldable pub handled : String → String → Result Fault (Unit {0}) → Coord H → Coord H
  unfolding blame_the_operator mark_failed
  handled now id (ok _) c = c
  handled now id (err (lost_authority reason)) c = blame_the_operator now id reason c
  handled now id (err (authentication reason)) c = blame_the_operator now id reason c
  handled now id (err (other reason)) c = mark_failed id reason c

  -- `_guarded`
  unfoldable pub guarded : String → Task → Coord H → Coord H
  unfolding handled
  guarded now t c = let (r, c') = run_task host mission grant scope now t c in handled now t.id r c'

  abbrev pub is_settled : Status → Bool
  is_settled s = is_ok s || is_failed s || is_blocked s

  unfoldable pub all_settled : Dict TaskState → Bool
  all_settled [] = true
  all_settled ((_, t) ∷ ts) = is_settled t.state && all_settled ts

  -- `_register_mission_result`
  unfoldable pub register_mission_result : Run H (Unit {0})
  unfolding ensure_coordinator_session
  register_mission_result c =
      (ensure_coordinator_session host mission grant scope >>= λ coord.
      call (
        host.register_artifact coord (record {
          name = "mission-result.json";
          content = mission_result (summary c.state);
          idempotency_key = append mission.name ":result";
        }))
      >>= λ _. pure tt)
        c

  -- What `_run_inside_credential` does after the schedule.
  unfoldable pub after_schedule : String → Run H (Unit {0})
  unfolding all_settled register_mission_result
  after_schedule now c =
      let s : MissionState = record c.state { credential = some (host.credential_status c.host) } in
      elim s.authority_lost [
        | some _ ↦ save (record c { state = s })
        | none ↦
            let s' : MissionState =
              if all_settled s.tasks
              then record s { state = MissionStatus.done; finished_at = some now }
              else s in
            let c' = (save (record c { state = s' })).1 in
            elim s'.state [
              | MissionStatus.done ↦ register_mission_result c'
              | MissionStatus.running ↦ pure tt c'
              | MissionStatus.lost_authority ↦ pure tt c'
            ]
      ]

  -- What `_run_inside_credential` does before the schedule: whether to go on.
  unfoldable pub before_schedule : String → Run H Bool
  unfolding ensure_coordinator_session record_lost_authority
  before_schedule now c =
      let (r, c') = ensure_coordinator_session host mission grant scope c in
      elim r [
        | ok _ ↦ (ok true, c')
        | err (lost_authority reason) ↦ (ok false, record_lost_authority now reason c')
        | err (authentication reason) ↦ (ok false, record_lost_authority now reason c')
        | err (other reason) ↦ (err (other reason), c')
      ]
