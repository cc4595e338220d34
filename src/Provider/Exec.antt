-- ===== src/Provider/Exec.antt =====
-- providers/local/barista_local_provider/app.py: an execution whose request is sent again, and the
-- requests that the token lets through.

use barista_apps.Prelude.{
  ℕ, String, Bool, false, Option, none, some, List, ◌≡◌, refl, sym, ◌∙◌, ap, subst, ◌==◌,
  text_equality, ==_refl, arith, Option-cases, Bool-cases, inl, inr, ◌⊎◌, is_empty,
}
use barista_apps.Prelude.Result.{Result, ok, err}
use barista_apps.Provider.Rows.{OperationRow, exit}
use barista_apps.Provider.Store
use barista_apps.Provider.Store.{
  Store, Fault, create_operation, insert_operation, insert_key, get_operation, idempotent_lookup,
  idempotent_record, append_event,
}
use barista_apps.Prelude.Tables.{truthy}
use barista_apps.Provider.Node.{NodeClient, ExecResult, NodeFault, not_found, unsupported, failed}
use barista_apps.Provider.Handlers.{
  World, Response, reply, error, crash, node_crash, Body, exec_body, replay_operation,
}
use barista_apps.Provider.Operations.{
  record_exec, exec_operation, output_events, finish_exec, exec_session, run_exec, ExecRequest,
}
use barista_apps.Prelude.Tables.{fetch-append}
use barista_apps.Provider.Retries.{lookup-record}

created :
    (now : ℕ) (row op : OperationRow) (s s' : Store)
    → create_operation now row none s ≡ ok (some op, s')
    → (op ≡ row) × (get_operation row.id s' ≡ some row) × (s'.sessions ≡ s.sessions)
unfolding create_operation idempotent_lookup truthy insert_operation insert_key get_operation
created now row op s s' e =
    let f = fetch-append (λ (r : OperationRow). r.id == row.id) s.operations row in
    (ground (arith, f, ==_refl row.id), ground (arith, f, ==_refl row.id), ground arith)

-- What is found under the key of an execution that was recorded.
replay-recorded :
    (now : ℕ) (k id : String) (op : OperationRow) (s : Store)
    → (k == "") ≡ false
    → (id == "") ≡ false
    → get_operation id s ≡ some op
    → replay_operation (some k) "exec" (idempotent_record now (some k) "exec" id s) ≡ some op
unfolding replay_operation truthy idempotent_record get_operation
replay-recorded now k id op s h g e = ground (arith, lookup-record now k "exec" id s h)

Created-cases :
    (o : Result Fault (Option OperationRow × Store))
    → ((op : OperationRow) × (s : Store) × (o ≡ ok (some op, s)))
      ⊎ ((s : Store) × (o ≡ ok (none, s)))
      ⊎ ((e : Fault) × (o ≡ err e))
Created-cases (ok (some op, s)) = inl (op, s, refl)
Created-cases (ok (none, s)) = inr (inl (s, refl))
Created-cases (err e) = inr (inr (e, refl))

error_ne :
    {W : Type 0} {n m : ℕ} {x y : String} {t : Bool} {b : Body} {w w' : W}
    → Path (Response × W) (error n x y t, w) (reply m b, w')
    → ⊥
error_ne e = cc

node_ne :
    {W : Type 0} {m : ℕ} {x : NodeFault} {b : Body} {w w' : W}
    → Path (Response × W) (node_crash x, w) (reply m b, w')
    → ⊥
node_ne e = cc

Exec-cases :
    {N : Type 0} (o : Result NodeFault ExecResult × N)
    → ((r : ExecResult) × (n : N) × (o ≡ (ok r, n)))
      ⊎ ((n : N) × (o ≡ (err not_found, n)))
      ⊎ ((n : N) × (o ≡ (err unsupported, n)))
      ⊎ ((n : N) × (o ≡ (err failed, n)))
Exec-cases (ok r, n) = inl (r, n, refl)
Exec-cases (err not_found, n) = inr (inl (n, refl))
Exec-cases (err unsupported, n) = inr (inr (inl (n, refl)))
Exec-cases (err failed, n) = inr (inr (inr (n, refl)))

same_instance :
    (sid : String) (s t : Store)
    → s.sessions ≡ t.sessions
    → truthy (Store.node_instance_id sid s) ≡ truthy (Store.node_instance_id sid t)
unfolding Store.node_instance_id Store.get_session
same_instance sid s t e = rw e refl

response_ne :
    {W : Type 0} {f : Fault} {n : ℕ} {b : Body} {w w' : W}
    → Path (Response × W) (crash f, w) (reply n b, w')
    → ⊥
response_ne e = cc

exec_id :
    {n : ℕ} {i j : String} {c d : Option ℕ}
    → reply n (exec_body i c) ≡ reply n (exec_body j d)
    → i ≡ j
exec_id e = ground arith

exec_cursor :
    {n : ℕ} {i j : String} {c d : Option ℕ}
    → reply n (exec_body i c) ≡ reply n (exec_body j d)
    → c ≡ d
exec_cursor e = ground arith

record-sessions :
    (now : ℕ) (key : Option String) (kind id : String) (s : Store)
    → (idempotent_record now key kind id s).sessions ≡ s.sessions
unfolding idempotent_record
record-sessions now key kind id s = ground arith

output_events-sessions :
    (now : ℕ) (sid : String) (result : ExecResult) (s : Store)
    → (output_events now sid result s).sessions ≡ s.sessions
unfolding output_events append_event
output_events-sessions now sid result s = ground arith

module _ {N : Type 0} (client : NodeClient N) (caps : List String) where
  -- What an execution that was recorded leaves.
  abbrev IsRecorded : String → String → Option ℕ → World N → World N → Type 0
  IsRecorded k id cursor w w' =
      (op : OperationRow) × (replay_operation (some k) "exec" w'.store ≡ some op)
      × (op.id ≡ id)
      × (op.last_event_cursor ≡ cursor)
      × (w'.store.sessions ≡ w.store.sessions)

  finish_exec-IsRecorded :
      (now : ℕ) (sid k id : String) (at cursor : Option ℕ) (result : ExecResult)
      (row : OperationRow) (s : Store) (w w' : World N)
      → (k == "") ≡ false
      → (row.id == "") ≡ false
      → row.last_event_cursor ≡ at
      → s.sessions ≡ w.store.sessions
      → finish_exec client caps now sid (some k) at result s (create_operation now row none s) w
        ≡ (reply 200 (exec_body id cursor), w')
      → IsRecorded k id cursor w w'
  unfolding finish_exec append_event idempotent_record truthy get_operation
  finish_exec-IsRecorded now sid k id at cursor result row s w w' h g a z e =
      elim (Created-cases (create_operation now row none s)) [
        | inl (op, s', p) ↦
            let (q, f, y) = created now row op s s' p in
            let s2 = (append_event now sid (exit result.exit_code) (some op.id) s').1 in
            let e' = rw p at e in
            let i = ap (λ (r : OperationRow). r.id) q in
            let kept : get_operation op.id s2 ≡ some row = ap (λ n. get_operation n s') i ∙ f in
            (
              row,
              subst (λ (w : World N). replay_operation (some k) "exec" w.store ≡ some row)
                  (ap (λ o. o.1) e')
                  (replay-recorded now k op.id row s2 h (ap (λ n. n == "") i ∙ g) kept),
              sym i ∙ exec_id (ap (λ o. o.0) e'),
              a ∙ exec_cursor (ap (λ o. o.0) e'),
              ap (λ o. o.1.store.sessions) (sym e')
                  ∙ record-sessions now (some k) "exec" op.id s2
                  ∙ y
                  ∙ z,
            )
        | inr (inl (s', p)) ↦ absurd (response_ne (rw p at e))
        | inr (inr (x, p)) ↦ absurd (response_ne (rw p at e))
      ]

  -- A request whose key is recorded is answered from the record.
  replays :
      (now : ℕ) (op_id sid k id inst : String) (cursor : Option ℕ) (q : ExecRequest)
      (w w' : World N)
      → truthy (Store.node_instance_id sid w.store) ≡ some inst
      → IsRecorded k id cursor w w'
      → exec_session client caps now op_id sid (record q { key = some k }) w'
        ≡ (reply 200 (exec_body id cursor), w')
  unfolding exec_session
  replays now op_id sid k id inst cursor q w w' p (op, r, i, c, z) =
      rw (same_instance sid w'.store w.store z ∙ p, r, exec_session) (rw (i, c) refl)

  run_exec-IsRecorded :
      (now : ℕ) (op_id sid k id inst : String) (cursor : Option ℕ) (q : ExecRequest)
      (w w' : World N)
      → (k == "") ≡ false
      → (op_id == "") ≡ false
      → run_exec client caps now op_id sid inst (record q { key = some k }) w
        ≡ (reply 200 (exec_body id cursor), w')
      → IsRecorded k id cursor w w'
  unfolding run_exec record_exec
  run_exec-IsRecorded now op_id sid k id inst cursor q w w' h g e =
      elim (Bool-cases (is_empty q.command)) [
        | inl p ↦ absurd (error_ne (rw (p, run_exec) at e))
        | inr p ↦
            elim (Exec-cases
              (client.exec inst q.command q.env q.working_dir q.timeout_seconds w.node)) [
                | inl (result, n, r) ↦
                    let s = output_events now sid result w.store in
                    let at = some (Store.current_max_cursor sid w.store) in
                    finish_exec-IsRecorded now sid k id at cursor result
                      (exec_operation op_id sid at result) s
                      (record w {
                        node =
                            (client.exec inst q.command q.env q.working_dir q.timeout_seconds
                              w.node).1;
                      })
                      w' h g refl (output_events-sessions now sid result w.store)
                      (rw (p, r, run_exec) at e)
                | inr (inl (n, r)) ↦ absurd (error_ne (rw (p, r, run_exec) at e))
                | inr (inr (inl (n, r))) ↦ absurd (node_ne (rw (p, r, run_exec) at e))
                | inr (inr (inr (n, r))) ↦ absurd (node_ne (rw (p, r, run_exec) at e))
              ]
      ]

  -- An execution that was answered is not run again: a retry with its key gets the same operation
  -- and cursor, and leaves the store and the node as they are. The key and the identifier of the
  -- operation are not empty.
  pub exec_session-IsIdempotent :
      (now later : ℕ) (op_id op_id' sid k id : String) (cursor : Option ℕ) (q : ExecRequest)
      (w w' : World N)
      → (k == "") ≡ false
      → (op_id == "") ≡ false
      → exec_session client caps now op_id sid (record q { key = some k }) w
        ≡ (reply 200 (exec_body id cursor), w')
      → exec_session client caps later op_id' sid (record q { key = some k }) w'
        ≡ (reply 200 (exec_body id cursor), w')
  unfolding exec_session
  exec_session-IsIdempotent now later op_id op_id' sid k id cursor q w w' h g e =
      elim (Option-cases (truthy (Store.node_instance_id sid w.store))) [
        | inl p ↦ absurd (error_ne (rw (p, exec_session) at e))
        | inr (inst, p) ↦ elim (Option-cases (replay_operation (some k) "exec" w.store)) [
          | inr (op, r) ↦
              let e' = rw (p, r, exec_session) at e in
              replays later op_id' sid k id inst cursor q w w' p (
                op,
                ap (λ o. replay_operation (some k) "exec" o.1.store) (sym e') ∙ r,
                exec_id (ap (λ o. o.0) e'),
                exec_cursor (ap (λ o. o.0) e'),
                ap (λ o. o.1.store.sessions) (sym e'),
              )
          | inl r ↦ replays later op_id' sid k id inst cursor q w w' p (
              run_exec-IsRecorded now op_id sid k id inst cursor q w w' h g
                (rw (p, r, exec_session) at e))
        ]
      ]
