-- ===== src/Factory/Pool.antt =====
-- apps/factory/barista_app_factory/coordinator.py: how `_schedule` fills its pool. The state is that
-- of one moment: what the workers change meanwhile is seen by the next round.
use barista_apps.Prelude.{
  ℕ, zero, suc, ◌-◌, String, not, Option, none, some, List, [], ◌∷◌, ◌++◌, keep, contains, length,
  text_equality,
}
use barista_apps.Prelude.Dict.{Dict}
use barista_apps.Mission.{Task}
use barista_apps.Factory.State.{TaskState}
use barista_apps.Factory.Graph.{ready}

abbrev pub head : List Task → Option Task
head [] = none
head (t ∷ tasks) = some t

-- `ready[0]` of the ready tasks that are not in flight.
unfoldable pub next_task : List Task → Dict TaskState → List String → Option Task
next_task tasks ts running = head (keep (λ t. not (contains running t.id)) (ready tasks ts))

-- At most so many submissions.
unfoldable pub submit : ℕ → List Task → Dict TaskState → List String → List String
submit zero tasks ts running = running
submit (suc slots) tasks ts running = elim (next_task tasks ts running) [
  | none ↦ running
  | some t ↦ submit slots tasks ts (running ++ t.id ∷ [])
]

-- The inner loop of `_schedule`, which has a round for each free slot.
unfoldable pub fill : ℕ → List Task → Dict TaskState → List String → List String
unfolding submit next_task
fill concurrency tasks ts running = submit (concurrency - length running) tasks ts running
