-- ===== src/Factory/Graph.antt =====
-- apps/factory/barista_app_factory/coordinator.py: which tasks may start, and which never will. A
-- task that the state lacks, which `MissionState.open` excludes, is passed over.
use barista_apps.Prelude.{
  String, Bool, false, not, ◌&&◌, ◌||◌, Option, none, some, List, [], ◌∷◌, keep, all, if◌then◌else◌,
}
use barista_apps.Prelude.Dict.{Dict, find, assign}
use barista_apps.Mission.{Task}
use barista_apps.Factory.State.{
  TaskState, Status, blocked, is_ok, is_pending, is_running, is_failed, is_blocked,
}

-- A test of the state of a task.
unfoldable pub has_status : (Status → Bool) → Dict TaskState → String → Bool
has_status p ts id = elim (find ts id) [ none ↦ false | some t ↦ p t.state ]

abbrev pub is_open : Status → Bool
is_open s = is_pending s || is_running s

abbrev pub is_lost : Status → Bool
is_lost s = is_failed s || is_blocked s

-- `_ready`
unfoldable pub ready : List Task → Dict TaskState → List Task
unfolding has_status
ready tasks ts =
    keep (λ t. has_status is_open ts t.id && all (λ d. has_status is_ok ts d) t.depends_on) tasks

-- The first dependency that has failed or is blocked.
unfoldable pub blocker : List String → Dict TaskState → Option String
unfolding has_status
blocker [] ts = none
blocker (d ∷ ds) ts = if has_status is_lost ts d then some d else blocker ds ts

unfoldable pub block : Dict TaskState → String → String → Dict TaskState
block ts id dep = elim (find ts id) [
  | none ↦ ts
  | some t ↦ assign ts id (record t { state = blocked; blocked_by = some dep })
]

-- One round of the loop of `_mark_unreachable`.
unfoldable pub mark_one : Task → Dict TaskState → Dict TaskState
unfolding has_status blocker block
mark_one t ts =
    if not (has_status is_pending ts t.id)
    then ts
    else elim (blocker t.depends_on ts) [ none ↦ ts | some dep ↦ block ts t.id dep ]

-- `_mark_unreachable`, in the order of the mission.
unfoldable pub mark_unreachable : List Task → Dict TaskState → Dict TaskState
unfolding mark_one
mark_unreachable [] ts = ts
mark_unreachable (t ∷ tasks) ts = mark_unreachable tasks (mark_one t ts)
