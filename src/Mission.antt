-- ===== src/Mission.antt =====
-- apps/factory/barista_app_factory/mission.py: a mission, and the checks that refuse one before
-- any worker exists.
pub mod Paths
pub mod Graph
mod Trace
mod Live
pub mod Acyclic
pub mod Termination
pub mod Cycles
pub mod Checks
pub mod Runnable
pub mod Reported
mod Samples
use barista_apps.Prelude.{
  ℕ, ◌+◌, ◌*◌, String, Bool, true, false, not, ◌&&◌, ◌||◌, Option, none, some, List, [], ◌∷◌, ◌++◌,
  map, ◌==◌, text_equality, if◌then◌else◌, contains, keep, is_empty, length, leb,
}
use barista_apps.Prelude.Dict
use barista_apps.Prelude.Dict.{Dict}
use barista_apps.Prelude.Result.{Result, ok, err, ◌>>=◌, ◌>>◌, guard}
use barista_apps.Mission.Paths.{normpath, looks_like_a_path}
use barista_apps.Mission.Graph.{Search, finished, cyclic, spent, search_fuel, search_roots}

pub record Task : Type 0 where
  pub id : String
  pub command : Option (List String)
  pub prompt : Option String
  pub check : Option (List String)
  pub collect : Bool
  pub env : Dict String
  pub workdir : Option String
  pub depends_on : List String
  pub produces : Dict String
  pub consumes : Dict String
  pub files : Dict String

pub record Budget : Type 0 where
  pub max_workers : Option ℕ
  pub max_exec_seconds : Option ℕ

pub record SecretRef : Type 0 where
  pub name : String
  pub ref : String

-- The bounds on egress, which the program only passes on.
pub record Egress : Type 0 where
  pub egress : Option String
  pub allow : Option (List String)

-- `permissions`: the secrets, and the egress.
pub record Permissions : Type 0 where
  pub secrets : Option (List SecretRef)
  pub egress : Egress

pub record Mission : Type 0 where
  pub name : String
  pub app : String
  pub tasks : List Task
  pub concurrency : ℕ
  pub strict_gates : Bool
  pub task_timeout_s : ℕ
  pub max_attempts : ℕ
  pub deadline_s : Option ℕ
  pub budget : Budget
  pub permissions : Permissions
  pub notify_url : Option String

-- The document before defaults are filled in; `none` is a missing key.
pub record Document : Type 0 where
  pub name : String
  pub app : String
  pub tasks : List Task
  pub concurrency : Option ℕ
  pub strict_gates : Option Bool
  pub task_timeout_s : Option ℕ
  pub max_attempts : Option ℕ
  pub deadline_s : Option ℕ
  pub budget : Option Budget
  pub permissions : Option Permissions
  pub notify_url : Option String

-- `MissionError`, by what its message names. `out_of_fuel` is the model's own.
pub data MissionError : Type 0 where
  schema_invalid duplicate_ids out_of_fuel : MissionError
  no_command : String → MissionError
  over_budget : ℕ → ℕ → MissionError
  depends_on_itself : String → MissionError
  unknown_dependency : String → String → MissionError
  dependency_cycle : List String → MissionError
  unordered_producer : String → String → List String → MissionError
  no_producer : String → String → MissionError
  marks_own_work : String → String → MissionError

abbrev pub Check : Type 0
Check = Result MissionError (Unit {0})

-- `for x in xs: check(x)`
unfoldable pub each : {A : Type 0} → (A → Check) → List A → Check
each f [] = ok tt
each f (x ∷ xs) = let rest = each f xs in f x >> rest

-- `if self.command` and `if self.prompt` are false on an empty list and an empty text too.
unfoldable pub command_of_prompt : String → Option String → Result MissionError (List String)
command_of_prompt id none = err (no_command id)
command_of_prompt id (some prompt) =
    if prompt == "" then err (no_command id) else ok ("agent" ∷ "-p" ∷ prompt ∷ [])

unfoldable pub worker_command : Task → Result MissionError (List String)
unfolding command_of_prompt
worker_command task = elim task.command [
  | none ↦ command_of_prompt task.id task.prompt
  | some command ↦ if is_empty command then command_of_prompt task.id task.prompt else ok command
]

abbrev pub keys : {V : Type 0} → Dict V → List String
keys d = map (λ e. e.0) d

abbrev pub values : {V : Type 0} → Dict V → List V
values d = map (λ e. e.1) d

-- The paths that the task's own command did not write; a set, by its membership.
unfoldable pub fixed_paths : Task → List String
fixed_paths task = map normpath (keys task.files) ++ map normpath (values task.consumes)

unfoldable pub ids : List Task → List String
ids tasks = map (λ t. t.id) tasks

-- `len(ids) != len(set(ids))`
unfoldable pub has_repetition : List String → Bool
has_repetition [] = false
has_repetition (x ∷ xs) = contains xs x || has_repetition xs

unfoldable pub enforce_budget : Mission → Check
enforce_budget m = elim m.budget.max_workers [
  | none ↦ ok tt
  | some limit ↦ guard (leb (length m.tasks) limit) (over_budget (length m.tasks) limit)
]

-- The dictionary `by_id()`: of two tasks with one id the later one counts.
unfoldable pub by_id : List Task → String → Option Task
by_id [] k = none
by_id (t ∷ ts) k = elim (by_id ts k) [ some u ↦ some u | none ↦ if t.id == k then some t else none ]

-- `tasks[node].depends_on`; a missing key cannot occur after `check_known`.
unfoldable pub deps_of : List Task → String → List String
deps_of tasks k = elim (by_id tasks k) [ none ↦ [] | some t ↦ t.depends_on ]

unfoldable pub check_known : List Task → Check
check_known tasks =
    each
      (λ task.
        each
          (λ dep.
            if dep == task.id
            then err (depends_on_itself task.id)
            else guard (contains (ids tasks) dep) (unknown_dependency task.id dep))
          task.depends_on)
      tasks

unfoldable pub of_search : Search → Check
of_search (finished _) = ok tt
of_search (cyclic path) = err (dependency_cycle path)
of_search spent = err out_of_fuel

unfoldable pub check_acyclic : List Task → Check
unfolding of_search
check_acyclic tasks =
    of_search (search_roots (deps_of tasks) (search_fuel (deps_of tasks) (ids tasks)) (ids tasks))

unfoldable pub produces_name : List Task → String → String → Bool
produces_name tasks name dep = elim (by_id tasks dep) [
  | none ↦ false
  | some t ↦ contains (keys t.produces) name
]

unfoldable pub check_consumed : List Task → Task → String → Check
unfolding produces_name
check_consumed tasks task name =
    if not (is_empty (keep (produces_name tasks name) task.depends_on))
    then ok tt
    else let elsewhere = ids (keep (λ t. contains (keys t.produces) name) tasks) in
      if is_empty elsewhere
      then err (no_producer task.id name)
      else err (unordered_producer task.id name elsewhere)

unfoldable pub check_data_flow : List Task → Check
check_data_flow tasks = each (λ task. each (check_consumed tasks task) (keys task.consumes)) tasks

unfoldable pub enforce_graph : Mission → Check
enforce_graph m = do check_known m.tasks; check_acyclic m.tasks; check_data_flow m.tasks

unfoldable pub check_argument : Task → String → Check
check_argument task arg =
    if not (looks_like_a_path arg)
    then ok tt
    else guard (contains (fixed_paths task) (normpath arg)) (marks_own_work task.id arg)

-- `if not task.check: continue`, then `task.check[1:]`
unfoldable pub arguments_of : Option (List String) → List String
arguments_of none = []
arguments_of (some []) = []
arguments_of (some (program ∷ args)) = args

unfoldable pub enforce_gates : Mission → Check
enforce_gates m =
    if not m.strict_gates
    then ok tt
    else each (λ task. each (check_argument task) (arguments_of task.check)) m.tasks

unfoldable pub or_default : {A : Type 0} → A → Option A → A
or_default d none = d
or_default d (some a) = a

unfoldable pub of_document : Document → Mission
unfolding or_default
of_document d = record {
  name = d.name;
  app = d.app;
  tasks = d.tasks;
  concurrency = or_default 3 d.concurrency;
  strict_gates = or_default false d.strict_gates;
  task_timeout_s = or_default 3600 d.task_timeout_s;
  max_attempts = or_default 1 d.max_attempts;
  deadline_s = d.deadline_s;
  budget = or_default (record { max_workers = none; max_exec_seconds = none }) d.budget;
  permissions =
      or_default (record { secrets = none; egress = record { egress = none; allow = none } })
        d.permissions;
  notify_url = d.notify_url;
}

-- `valid` is the JSON Schema validator.
unfoldable pub load : (Document → Bool) → Document → Result MissionError Mission
load valid d = do
  guard (valid d) schema_invalid
  guard (not (has_repetition (ids d.tasks))) duplicate_ids
  let mission = of_document d
  enforce_budget mission
  enforce_graph mission
  enforce_gates mission
  ok mission
