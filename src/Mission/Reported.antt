-- ===== src/Mission/Reported.antt =====
-- apps/factory/barista_app_factory/mission.py: the cycle that a refusal names.
use barista_apps.Prelude.{String, List, ◌≡◌}
use barista_apps.Prelude.Result.{ok, err}
use barista_apps.Mission.Graph.{Search, finished, cyclic, spent, search_roots, search_fuel}
use barista_apps.Mission.Cycles.{IsCycle}
use barista_apps.Mission.Termination.{Good, search_roots-Good}
use barista_apps.Mission.Checks.{deps_of_total}
use barista_apps.Mission.{
  Task, MissionError, Check, ids, deps_of, of_search, check_acyclic, dependency_cycle,
}

ok_ne : {e : MissionError} → Path Check (ok tt) (err e) → ⊥
ok_ne p = cc

err_eq : {e f : MissionError} → Path Check (err f) (err e) → e ≡ f
err_eq p = cc

module _ (tasks : List Task) where
  -- What a check of the graph may refuse with.
  abbrev pub NamesCycle : MissionError → Type 0
  NamesCycle e =
      (cycle : List String) × (e ≡ dependency_cycle cycle) × IsCycle (deps_of tasks) cycle

  named :
      (r : Search) (e : MissionError)
      → Good (deps_of tasks) (ids tasks) (deps_of_total tasks) r
      → of_search r ≡ err e
      → NamesCycle e
  unfolding of_search
  named (finished c) e g p = absurd (ok_ne p)
  named (cyclic l) e g p = (l, err_eq p, g)
  named spent e g p = absurd g

  -- The search for cycles ends within its fuel, so that the one way for it to refuse a mission is to
  -- name a cycle, and what it names is a chain of dependencies of the mission that closes.
  pub check_acyclic-NamesCycle : (e : MissionError) → check_acyclic tasks ≡ err e → NamesCycle e
  unfolding check_acyclic
  check_acyclic-NamesCycle e p =
      named (search_roots (deps_of tasks) (search_fuel (deps_of tasks) (ids tasks)) (ids tasks)) e
        (search_roots-Good (deps_of tasks) (ids tasks) (deps_of_total tasks) (ids tasks)) p
