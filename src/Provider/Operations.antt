-- ===== src/Provider/Operations.antt =====
-- providers/local/barista_local_provider/app.py: the handlers of one session and of operations.
use barista_apps.Prelude.{
  ℕ, String, Bool, true, false, not, Option, none, some, List, ◌==◌, text_equality, if◌then◌else◌,
  contains, is_empty,
}
use barista_apps.Prelude.Dict.{Dict}
use barista_apps.Prelude.Result.{Result, ok, err}
use barista_apps.Provider.Rows.{SessionRow, OperationRow, stdout, stderr, exit}
use barista_apps.Provider.Store
use barista_apps.Provider.Store.{Store, Fault, type_error}
use barista_apps.Prelude.Tables.{truthy}
use barista_apps.Provider.Node.{
  NodeClient, NodeInstance, ExecResult, NodeFault, unsupported, not_found, failed,
}
use barista_apps.Provider.Handlers.{
  Response, reply, crash, node_crash, not_found_error, capability_unsupported, invalid_request,
  unavailable, World, Verb, pause, resume, kind_of, replay_operation, is_of, session_body,
  null_body, operation_body, exec_body, sessions_body,
}

abbrev pub operation_reply : Option OperationRow → Response
operation_reply none = reply 202 null_body
operation_reply (some op) = reply 202 (operation_body op)

abbrev pub operation : String → String → Bool → String → OperationRow
operation id kind done sid = record {
  id = id;
  kind = kind;
  done = done;
  session_id = some sid;
  exit_code = none;
  last_event_cursor = none;
}

pub record ExecRequest : Type 0 where
  pub command : List String
  pub env : Dict String
  pub working_dir : Option String
  pub timeout_seconds : Option ℕ
  pub key : Option String

abbrev pub exec_operation : String → String → Option ℕ → ExecResult → OperationRow
exec_operation id sid cursor result = record {
  id = id;
  kind = "exec";
  done = true;
  session_id = some sid;
  exit_code = some result.exit_code;
  last_event_cursor = cursor;
}

-- The events of what a command printed.
unfoldable pub output_events : ℕ → String → ExecResult → Store → Store
output_events now sid result s =
    let s1 = (Store.append_event now sid (stdout result.stdout) none s).1 in
    if is_empty result.stderr
    then s1
    else (Store.append_event now sid (stderr result.stderr) none s1).1

module _ {N : Type 0} (client : NodeClient N) (caps : List String) where
  -- The state of the node, where it has the instance and a state that differs.
  unfoldable pub refreshed :
      ℕ → String → SessionRow → Option NodeInstance → World N → Response × World N
  refreshed now sid row none w = (reply 200 (session_body row), w)
  refreshed now sid row (some inst) w =
      if inst.state == row.state then (reply 200 (session_body row), w) else (
        reply 200 (session_body (record row { state = inst.state })),
        record w { store = Store.set_session_state sid inst.state w.store },
      )

  unfoldable pub get_session : ℕ → String → World N → Response × World N
  unfolding refreshed
  get_session now sid w = elim (Store.get_session sid w.store) [
    | none ↦ (not_found_error, w)
    | some row ↦ elim (truthy (Store.node_instance_id sid w.store)) [
      | none ↦ (reply 200 (session_body row), w)
      | some inst_id ↦ elim (client.lookup_instance inst_id w.node) [
        | err e ↦ (node_crash e, w)
        | ok inst ↦ refreshed now sid row inst w
      ]
    ]
  ]

  unfoldable pub list_sessions : Option String → World N → Response × World N
  list_sessions app w = (reply 200 (sessions_body (Store.list_sessions app w.store)), w)

  -- `if inst_id: destroy it`, where the node may not know it.
  unfoldable pub destroyed : Option String → World N → Result NodeFault (Unit {0}) × N
  destroyed none w = (ok tt, w.node)
  destroyed (some inst_id) w = client.destroy inst_id w.node

  unfoldable pub record_deletion :
      ℕ
      → String
      → Option String
      → Result Fault (Option OperationRow × Store)
      → World N
      → Response × World N
  record_deletion now sid idem (err e) w = (crash e, w)
  record_deletion now sid idem (ok (none, s)) w =
      (crash type_error, record w { store = Store.delete_session sid s })
  record_deletion now sid idem (ok (some op, s)) w = (
    operation_reply (some op),
    record w {
      store = Store.idempotent_record now idem "delete" op.id (Store.delete_session sid s);
    },
  )

  unfoldable pub after_destroy :
      ℕ
      → String
      → String
      → Option String
      → Result NodeFault (Unit {0}) × N
      → World N
      → Response × World N
  unfolding record_deletion
  after_destroy now op_id sid idem (err unsupported, n) w =
      (node_crash unsupported, record w { node = n })
  after_destroy now op_id sid idem (err failed, n) w = (node_crash failed, record w { node = n })
  after_destroy now op_id sid idem (_, n) w =
      record_deletion now sid idem
        (Store.create_operation now (operation op_id "delete" true sid) none w.store)
        (record w { node = n })

  unfoldable pub delete_session : ℕ → String → String → Option String → World N → Response × World N
  unfolding replay_operation destroyed after_destroy truthy
  delete_session now op_id sid idem w = elim (replay_operation idem "delete" w.store) [
    | some op ↦ (operation_reply (some op), w)
    | none ↦ elim (Store.get_session sid w.store) [
      | none ↦ (not_found_error, w)
      | some _ ↦
          after_destroy now op_id sid idem
            (destroyed (truthy (Store.node_instance_id sid w.store)) w) w
    ]
  ]

  unfoldable pub node_verb : Verb → String → String → N → Result NodeFault (Unit {0}) × N
  node_verb pause = client.pause
  node_verb resume = client.resume

  unfoldable pub finished : ℕ → String → String → NodeInstance → World N → Response × World N
  finished now op_id sid inst w = elim (Store.finish_lifecycle now op_id sid inst.state w.store) [
    | err e ↦ (crash e, w)
    | ok (op, s) ↦ (operation_reply op, record w { store = s })
  ]

  -- The `try` block of `_lifecycle` and what follows it.
  unfoldable pub run_verb : ℕ → Verb → String → String → String → World N → Response × World N
  unfolding node_verb finished
  run_verb now verb op_id sid inst_id w =
      let (r, n) = node_verb verb inst_id op_id w.node in
      let w' : World N = record w { node = n } in
      elim r [
        | err unsupported ↦ (capability_unsupported, w')
        | err not_found ↦ (unavailable "session.lifecycle_uncertain", w')
        | err failed ↦ (unavailable "session.lifecycle_uncertain", w')
        | ok _ ↦ elim (client.lookup_instance inst_id n) [
          | err unsupported ↦ (capability_unsupported, w')
          | err not_found ↦ (unavailable "session.lifecycle_uncertain", w')
          | err failed ↦ (unavailable "session.lifecycle_uncertain", w')
          | ok none ↦ (not_found_error, w')
          | ok (some inst) ↦ finished now op_id sid inst w'
        ]
      ]

  unfoldable pub after_create :
      ℕ
      → Verb
      → String
      → String
      → Result Fault (Option OperationRow × Store)
      → World N
      → Response × World N
  unfolding run_verb
  after_create now verb sid inst_id (err e) w = (crash e, w)
  after_create now verb sid inst_id (ok (none, s)) w = (crash type_error, record w { store = s })
  after_create now verb sid inst_id (ok (some op, s)) w =
      if is_of op sid
      then run_verb now verb op.id sid inst_id (record w { store = s })
      else (invalid_request "invalid_request", record w { store = s })

  unfoldable pub start_verb :
      ℕ → Verb → String → String → Option String → World N → Response × World N
  unfolding after_create truthy
  start_verb now verb op_id sid idem w =
      if not (contains caps "session.pause_resume")
      then (capability_unsupported, w)
      else elim (truthy (Store.node_instance_id sid w.store)) [
        | none ↦ (not_found_error, w)
        | some inst_id ↦
            after_create now verb sid inst_id
              (Store.create_operation now (operation op_id (kind_of verb) false sid) idem w.store) w
      ]

  unfoldable pub lifecycle :
      ℕ → Verb → String → String → Option String → World N → Response × World N
  unfolding start_verb replay_operation
  lifecycle now verb op_id sid idem w = elim (replay_operation idem (kind_of verb) w.store) [
    | none ↦ start_verb now verb op_id sid idem w
    | some op ↦
        if not (is_of op sid)
        then (invalid_request "invalid_request", w)
        else if op.done
        then (operation_reply (some op), w)
        else start_verb now verb op_id sid idem w
  ]

  unfoldable pub finish_exec :
      ℕ
      → String
      → Option String
      → Option ℕ
      → ExecResult
      → Store
      → Result Fault (Option OperationRow × Store)
      → World N
      → Response × World N
  finish_exec now sid idem cursor result s (err e) w = (crash e, record w { store = s })
  finish_exec now sid idem cursor result s (ok (none, s')) w =
      (crash type_error, record w { store = s' })
  finish_exec now sid idem cursor result s (ok (some op, s')) w = (
    reply 200 (exec_body op.id cursor),
    record w {
      store =
          Store.idempotent_record now idem "exec" op.id
            (Store.append_event now sid (exit result.exit_code) (some op.id) s').1;
    },
  )

  -- The events and the operation that an execution leaves.
  unfoldable pub record_exec :
      ℕ → String → String → Option String → ExecResult → World N → Response × World N
  unfolding finish_exec output_events
  record_exec now op_id sid idem result w =
      let cursor = some (Store.current_max_cursor sid w.store) in
      let s = output_events now sid result w.store in
      finish_exec now sid idem cursor result s
        (Store.create_operation now (exec_operation op_id sid cursor result) none s) w

  unfoldable pub run_exec :
      ℕ → String → String → String → ExecRequest → World N → Response × World N
  unfolding record_exec
  run_exec now op_id sid inst_id q w =
      if is_empty q.command
      then (invalid_request "invalid_request", w)
      else let (r, n) =
          client.exec inst_id q.command q.env q.working_dir q.timeout_seconds w.node in
        let w' : World N = record w { node = n } in
        elim r [
          | err not_found ↦ (not_found_error, w')
          | err unsupported ↦ (node_crash unsupported, w')
          | err failed ↦ (node_crash failed, w')
          | ok result ↦ record_exec now op_id sid q.key result w'
        ]

  unfoldable pub exec_session : ℕ → String → String → ExecRequest → World N → Response × World N
  unfolding run_exec replay_operation truthy
  exec_session now op_id sid q w = elim (truthy (Store.node_instance_id sid w.store)) [
    | none ↦ (not_found_error, w)
    | some inst_id ↦ elim (replay_operation q.key "exec" w.store) [
      | some op ↦ (reply 200 (exec_body op.id op.last_event_cursor), w)
      | none ↦ run_exec now op_id sid inst_id q w
    ]
  ]
