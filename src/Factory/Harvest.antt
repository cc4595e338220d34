-- ===== src/Factory/Harvest.antt =====
-- apps/factory/barista_app_factory/coordinator.py: a worker is reaped after its receipt is saved.

use Prim.Native.String.{◌++◌ as append}
use barista_apps.Prelude.{
  sym, ◌∙◌, none, [], Option-cases, ℕ, String, Option, some, List, ◌≡◌, refl, ap, subst, ◌⊎◌, inl,
  inr, ==_refl, text_equality, arith,
}
use barista_apps.Prelude.Dict.{find, find-assign}
use barista_apps.Prelude.Result.{Result, ok, err}
use barista_apps.Mission.{Task, Mission}
use barista_apps.Factory.State.{TaskState, Status, CheckResult, Receipt, receipt, to_dict}
use barista_apps.Factory.Grants.{WorkerGrant}
use barista_apps.Prelude.Action.{◌>>=◌, ◌>>◌, >>=-eq-ok, Answer-cases}
use barista_apps.Factory.Host.{Fault, Host, Coord, Run, task_state, call, task_receipt}
use barista_apps.Factory.Worker.{
  non_empty, remember_session, collect_output, register_receipt, harvest_then_reap, task_key,
  receipt_of, registered, receipt_artifact, settle, settled, ensure_coordinator_session,
}

answer_parts :
    {A S : Type 0} {a b : A} {s t : S}
    → Path (Result Fault A × S) (ok a, s) (ok b, t)
    → (a ≡ b) × (s ≡ t)
answer_parts e = (cc, cc)

module _ {H : Type 0} (host : Host H) (mission : Mission) (grant : WorkerGrant)
    (scope : Option String) where
  abbrev pub harvested : String → Task → String → ℕ → List CheckResult → Run H (Unit {0})
  harvested now t worker exit_code checks =
      collect_output host mission grant scope t worker
      >> register_receipt host mission grant scope now t exit_code checks Status.ok

  -- The state file has the task as passed, with its receipt, which is of this mission, task and
  -- outcome; and the artifact that it names is what the provider answered, last of all, to the
  -- registration of that receipt in the session of the coordinator.
  abbrev pub IsHarvested : String → Task → ℕ → List CheckResult → Coord H → Type 0
  IsHarvested now t exit_code checks c =
      (ts : TaskState) × (r : Receipt) × (a coord : String) × (h : H) × (find c.state.tasks t.id
        ≡ some ts)
      × (c.saved ≡ some (to_dict c.state))
      × (ts.state ≡ Status.ok)
      × (ts.receipt ≡ some (receipt r))
      × (ts.receipt_artifact_id ≡ some a)
      × (r.mission ≡ mission.name)
      × (r.task ≡ t.id)
      × (r.worker ≡ ts.worker)
      × (r.outcome ≡ Status.ok)
      × (r.attempts ≡ ts.attempts)
      × (r.exit_code ≡ exit_code)
      × (r.checks ≡ checks)
      × (r.harvested ≡ t.collect)
      × (r.completed_at ≡ now)
      × (c.state.coordinator_session_id ≡ some coord)
      × (host.register_artifact coord
            (record {
              name = append "receipt-" (append t.id ".json");
              content = task_receipt r;
              idempotency_key = append mission.name (append ":" (append t.id ":receipt"));
            })
            h
          ≡ (ok a, c.host))

  non_empty_eq : (o : Option String) (id : String) → non_empty o ≡ some id → o ≡ some id
  unfolding non_empty
  non_empty_eq none id e = ground arith
  non_empty_eq (some x) id e = ground arith

  ensure_coordinator_session-eq-ok :
      (c c' : Coord H) (id : String)
      → ensure_coordinator_session host mission grant scope c ≡ (ok id, c')
      → c'.state.coordinator_session_id ≡ some id
  unfolding ensure_coordinator_session
  ensure_coordinator_session-eq-ok c c' id e =
      elim (Option-cases (non_empty c.state.coordinator_session_id)) [
        | inr (x, p) ↦
            let (i, k) = answer_parts (rw (p, ensure_coordinator_session) at e) in
            ap (λ (c : Coord H). c.state.coordinator_session_id) (sym k)
            ∙ non_empty_eq c.state.coordinator_session_id x p
            ∙ ap some i
        | inl p ↦ elim (Option-cases (non_empty scope)) [
          | inr (x, q) ↦
              let (i, k) = answer_parts (rw (p, q, ensure_coordinator_session) at e) in
              ap (λ (c : Coord H). c.state.coordinator_session_id) (sym k) ∙ ap some i
          | inl q ↦
              let (x, c1, _, e1) =
                >>=-eq-ok
                  (call (
                    host.ensure_session mission.app (append mission.name "-coordinator")
                      (append mission.name ":coordinator") []))
                  (remember_session host mission grant scope) c
                  (rw (p, q, ensure_coordinator_session) at e) in
              let (i, k) = answer_parts e1 in
              ap (λ (c : Coord H). c.state.coordinator_session_id) (sym k) ∙ ap some i
        ]
      ]

  -- A receipt that is registered is saved with the task's outcome.
  register_receipt-IsHarvested :
      (now : String) (t : Task) (exit_code : ℕ) (checks : List CheckResult) (c c' : Coord H)
      → register_receipt host mission grant scope now t exit_code checks Status.ok c ≡ (ok tt, c')
      → IsHarvested now t exit_code checks c'
  unfolding register_receipt receipt_of
  register_receipt-IsHarvested now t exit_code checks c c' e =
      let after : TaskState → String → Run H (Unit {0}) = λ ts.
        registered host mission grant scope t
          (receipt_of host mission grant scope now t ts exit_code checks Status.ok) Status.ok ts in
      let (ts, c1, p, e1) =
        >>=-eq-ok (task_state t.id)
          (λ ts. ensure_coordinator_session host mission grant scope >>= after ts) c e in
      let (coord, c2, q, e2) =
        >>=-eq-ok (ensure_coordinator_session host mission grant scope) (after ts) c1 e1 in
      let r = receipt_of host mission grant scope now t ts exit_code checks Status.ok in
      let (a, c3, u, e3) =
        >>=-eq-ok
          (call (host.register_artifact coord (receipt_artifact host mission grant scope t r)))
          (settle host mission grant scope t r Status.ok ts) c2 e2 in
      subst (IsHarvested now t exit_code checks) (ap (λ o. o.1) e3) (
        settled host mission grant scope r a Status.ok ts,
        r,
        a,
        coord,
        c2.host,
        ground (
          arith,
          find-assign t.id t.id (settled host mission grant scope r a Status.ok ts) c3.state.tasks,
          ==_refl t.id,
        ),
        refl,
        refl,
        refl,
        refl,
        refl,
        refl,
        refl,
        refl,
        refl,
        refl,
        refl,
        refl,
        refl,
        ap (λ (c : Coord H). c.state.coordinator_session_id) (sym (ap (λ o. o.1) u))
            ∙ ensure_coordinator_session-eq-ok c1 c2 coord q,
        ap (λ o. (o.0, o.1.host)) u,
      )

  -- A harvest that returns has first registered the receipt of the task and saved the task as passed
  -- with that receipt and the artifact that the registration answered, and only then asked for the deletion of the worker, which changes no more than the
  -- world; one that raises has not asked for it.
  pub harvest_then_reap-IsSafe :
      (now : String) (t : Task) (worker : String) (exit_code : ℕ) (checks : List CheckResult)
      (c : Coord H)
      → ((c' : Coord H) × IsHarvested now t exit_code checks c'
          × (harvested now t worker exit_code checks c ≡ (ok tt, c'))
          × (harvest_then_reap host mission grant scope now t worker exit_code checks c ≡ (
            ok tt,
            record c' {
              host =
                  (host.delete_session worker
                    (task_key host mission grant scope t "reap")
                    c'.host).1;
            },
          )))
        ⊎ ((e : Fault) × (c' : Coord H) × (harvested now t worker exit_code checks c ≡ (err e, c'))
            × (harvest_then_reap host mission grant scope now t worker exit_code checks c
                ≡ (err e, c')))
  unfolding harvest_then_reap
  harvest_then_reap-IsSafe now t worker exit_code checks c =
      let reg = register_receipt host mission grant scope now t exit_code checks Status.ok in
      elim (Answer-cases (collect_output host mission grant scope t worker c)) [
        | inr (e, c1, p) ↦ inr (e, c1, rw p refl, rw p refl)
        | inl (_, c1, p) ↦ elim (Answer-cases (reg c1)) [
          | inr (e, c2, q) ↦ inr (e, c2, rw (p, q) refl, rw (p, q) refl)
          | inl (_, c2, q) ↦ inl (
            c2,
            register_receipt-IsHarvested now t exit_code checks c1 c2 q,
            rw (p, q) refl,
            rw (p, q) refl,
          )
        ]
      ]
