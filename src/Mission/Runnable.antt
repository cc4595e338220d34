-- ===== src/Mission/Runnable.antt =====
-- `Mission.load` accepts exactly the missions that can be run: one theorem over the budget, the
-- graph, the data flow and the gates.
use barista_apps.Prelude.{
  ℕ, ◌≤◌, String, Bool, true, not, Option, none, some, ◌≡◌, refl, sym, subst, ◌↔◌, inl, inr,
  text_equality, length, leb, All, Nodup, arith, Bool-cases,
}
use barista_apps.Prelude.Result.{ok, guard}
use barista_apps.Mission.Acyclic.{Depends}
use barista_apps.Mission.{
  Mission, Document, each, keys, ids, has_repetition, enforce_budget, deps_of, check_data_flow,
  enforce_graph, check_argument, arguments_of, enforce_gates, of_document, load, over_budget,
}
use barista_apps.Mission.Checks.{
  IsKnown, IsProduced, IsFixed, >>-eq-ok_iff, each_iff, Nodup-iff, check_known-eq-ok,
  check_acyclic-eq-ok, check_consumed-eq-ok, check_argument-eq-ok,
}

-- What `load` asks of a mission.
pub record IsRunnable (m : Mission) : Type 0 where
  pub ids_once : Nodup (ids m.tasks)
  pub in_budget : (limit : ℕ) → m.budget.max_workers ≡ some limit → length m.tasks ≤ limit
  pub known : All (λ t. All (IsKnown m.tasks t) t.depends_on) m.tasks
  pub acyclic : (x : String) → ¬ Depends (deps_of m.tasks) x x
  pub produced : All (λ t. All (IsProduced m.tasks t) (keys t.consumes)) m.tasks
  pub gated : m.strict_gates ≡ true → All (λ t. All (IsFixed t) (arguments_of t.check)) m.tasks

enforce_budget-eq-ok :
    (m : Mission)
    → (enforce_budget m ≡ ok tt)
      ↔ ((limit : ℕ) → m.budget.max_workers ≡ some limit → length m.tasks ≤ limit)
unfolding enforce_budget
enforce_budget-eq-ok m = (λ h limit e. ground arith, λ h. within m.budget.max_workers h)
  where
    within :
        (o : Option ℕ)
        → ((limit : ℕ) → o ≡ some limit → length m.tasks ≤ limit)
        → elim o [
          | none ↦ ok tt
          | some l ↦ guard (leb (length m.tasks) l) (over_budget (length m.tasks) l)
        ]
          ≡ ok tt
    within none h = refl
    within (some l) h = ground (arith, h l refl)

enforce_gates-eq-ok :
    (m : Mission)
    → (enforce_gates m ≡ ok tt)
      ↔ (m.strict_gates ≡ true → All (λ t. All (IsFixed t) (arguments_of t.check)) m.tasks)
unfolding enforce_gates
enforce_gates-eq-ok m = elim (Bool-cases m.strict_gates) [
  | inl e ↦ (λ h _. every.0 (rw e at h), λ h. rw e (every.1 (h e)))
  | inr e ↦ (λ h c. cc, λ h. rw e refl)
]
  where
    every :
        (each (λ task. each (check_argument task) (arguments_of task.check)) m.tasks ≡ ok tt)
        ↔ All (λ t. All (IsFixed t) (arguments_of t.check)) m.tasks
    every = each_iff _ (λ t. each_iff _ (check_argument-eq-ok t) (arguments_of t.check)) m.tasks

enforce_graph-eq-ok :
    (m : Mission)
    → (enforce_graph m ≡ ok tt)
      ↔ All (λ t. All (IsKnown m.tasks t) t.depends_on) m.tasks
        × ((x : String) → ¬ Depends (deps_of m.tasks) x x)
        × All (λ t. All (IsProduced m.tasks t) (keys t.consumes)) m.tasks
unfolding enforce_graph check_data_flow
enforce_graph-eq-ok m = (
  λ h.
      let (k, r) = (>>-eq-ok_iff _ _).0 h in
      let (a, p) = (>>-eq-ok_iff _ _).0 r in
      ((check_known-eq-ok m.tasks).0 k, (check_acyclic-eq-ok m.tasks).0 a, flow.0 p),
  λ h. (>>-eq-ok_iff _ _).1 (
    (check_known-eq-ok m.tasks).1 h.0,
    (>>-eq-ok_iff _ _).1 ((check_acyclic-eq-ok m.tasks).1 h.1, flow.1 h.2),
  ),
)
  where
    flow :
        (check_data_flow m.tasks ≡ ok tt)
        ↔ All (λ t. All (IsProduced m.tasks t) (keys t.consumes)) m.tasks
    flow = each_iff _ (λ t. each_iff _ (check_consumed-eq-ok m.tasks t) (keys t.consumes)) m.tasks

load-parts :
    (valid : Document → Bool) (d : Document) (m : Mission)
    → (load valid d ≡ ok m)
      ↔ (valid d ≡ true)
        × (not (has_repetition (ids d.tasks)) ≡ true)
        × (enforce_budget (of_document d) ≡ ok tt)
        × (enforce_graph (of_document d) ≡ ok tt)
        × (enforce_gates (of_document d) ≡ ok tt)
        × (of_document d ≡ m)
unfolding load
load-parts valid d m = (λ h. ground arith, λ h. ground arith)

-- A document loads as `m` exactly when it is valid by its schema, `m` is it with the defaults
-- filled in, and `m` is runnable: its task ids are unique, its tasks are within the budget, each
-- dependency is another task, no task depends on itself through any number of others, each
-- consumed output is produced by a dependency, and under strict gates each path that a check
-- names was planted or received.
pub load-eq-ok :
    (valid : Document → Bool) (d : Document) (m : Mission)
    → (load valid d ≡ ok m) ↔ (valid d ≡ true) × (of_document d ≡ m) × IsRunnable m
unfolding of_document
load-eq-ok valid d m = (
  λ h.
      let (v, u, b, g, t, e) = (load-parts valid d m).0 h in
      let (k, a, p) = (enforce_graph-eq-ok (of_document d)).0 g in
      (
        v,
        e,
        subst IsRunnable e (record {
          ids_once = (Nodup-iff (ids d.tasks)).0 u;
          in_budget = (enforce_budget-eq-ok (of_document d)).0 b;
          known = k;
          acyclic = a;
          produced = p;
          gated = (enforce_gates-eq-ok (of_document d)).0 t;
        }),
      ),
  λ (v, e, r).
      let r' : IsRunnable (of_document d) = subst IsRunnable (sym e) r in
      (load-parts valid d m).1 (
        v,
        (Nodup-iff (ids d.tasks)).1 r'.ids_once,
        (enforce_budget-eq-ok (of_document d)).1 r'.in_budget,
        (enforce_graph-eq-ok (of_document d)).1 (r'.known, r'.acyclic, r'.produced),
        (enforce_gates-eq-ok (of_document d)).1 r'.gated,
        e,
      ),
)
