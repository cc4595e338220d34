-- ===== src/Provider/Finished.antt =====
-- providers/local/barista_local_provider/store.py: what the end of a lifecycle operation leaves.
use barista_apps.Prelude.{
  ℕ, suc, String, true, false, Option, none, some, [], ◌∷◌, ◌≡◌, ◌≢◌, refl, ◌⊎◌, inl, inr, ◌==◌,
  text_equality, ==_iff, arith, if◌then◌else◌, Option-cases, Bool-cases,
}
use barista_apps.Prelude.Result.{Result, ok, err}
use barista_apps.Prelude.Tables.{update, fetch-update, fetch-update_other}
use barista_apps.Provider.Rows.{SessionRow, OperationRow, state_changed}
use barista_apps.Provider.Store.{
  Store, Fault, type_error, mark_done, get_session, get_operation, finish_lifecycle,
  set_session_state, state_event, append_event, read_events, current_max_cursor,
}
use barista_apps.Provider.Journal.{IsJournal, append_event-IsJournal, read_events-append_event}

-- The end of an operation, as the queries of the store show it.
pub record IsEnded (now : ℕ) (op_id sid state : String) (op : OperationRow) (s s' : Store)
    : Type 0 where
  pub operation : get_operation op_id s' ≡ some (record op { done = true })
  pub other_operations : (id : String) → id ≢ op_id → get_operation id s' ≡ get_operation id s
  pub session :
      ((get_session sid s ≡ none) × (get_session sid s' ≡ none))
      ⊎ ((row : SessionRow) × (get_session sid s ≡ some row)
          × (get_session sid s' ≡ some (record row { state = state })))
  pub other_sessions : (id : String) → id ≢ sid → get_session id s' ≡ get_session id s
  -- a reader who was up to date gets the one event, if it is of the session that is read
  pub events :
      (reader : String) (limit : ℕ)
      → read_events reader (current_max_cursor reader s) (suc limit) s' ≡ (
          if sid == reader
          then record {
            seq = suc s.last_seq;
            session_id = sid;
            operation_id = some op_id;
            time = now;
            body = state_changed state;
          }
            ∷ []
          else [])
  pub journal : IsJournal s'
  pub apps : s'.apps ≡ s.apps
  pub keys : s'.keys ≡ s.keys
  pub pending : s'.pending ≡ s.pending
  pub artifacts : s'.artifacts ≡ s.artifacts

-- What a request to finish an operation comes to: a fault where there is none; the operation as it
-- is where it was done; and its end otherwise.
abbrev pub IsFinished :
    ℕ → String → String → String → Store → Result Fault (Option OperationRow × Store) → Type 0
IsFinished now op_id sid state s result =
    ((get_operation op_id s ≡ none) × (result ≡ err type_error))
    ⊎ ((op : OperationRow) × (get_operation op_id s ≡ some op)
        × (op.done ≡ true)
        × (result ≡ ok (some op, s)))
    ⊎ ((op : OperationRow) × (s' : Store) × (get_operation op_id s ≡ some op)
        × (op.done ≡ false)
        × (result ≡ ok (some (record op { done = true }), s'))
        × IsEnded now op_id sid state op s s')

-- The store in which an operation is done and its session moved on, before the event.
abbrev moved : String → String → String → Store → Store
moved op_id sid state s = record s {
  sessions = update (λ r. r.id == sid) (λ r. record r { state = state }) s.sessions;
  operations = update (λ r. r.id == op_id) mark_done s.operations;
}

other_id : (a b c : String) → b ≢ a → (c == b) ≡ true → (c == a) ≡ false
other_id a b c n e = elim (Bool-cases (c == a)) [
  | inl h ↦ absurd (n (ground (arith, ==_iff c a, ==_iff c b)))
  | inr h ↦ h
]

moved-IsJournal :
    (op_id sid state : String) (s : Store) → IsJournal s → IsJournal (moved op_id sid state s)
unfolding IsJournal
moved-IsJournal op_id sid state s j = j

moved-session :
    (op_id sid state : String) (s : Store)
    → ((get_session sid s ≡ none) × (get_session sid (moved op_id sid state s) ≡ none))
      ⊎ ((row : SessionRow) × (get_session sid s ≡ some row)
          × (get_session sid (moved op_id sid state s) ≡ some (record row { state = state })))
unfolding get_session
moved-session op_id sid state s =
    let f : SessionRow → SessionRow = λ r. record r { state = state } in
    let e = fetch-update (λ (r : SessionRow). r.id == sid) f (λ r. refl) s.sessions in
    elim (Option-cases (get_session sid s)) [
      | inl p ↦ inl (p, ground (arith, e, p))
      | inr (row, p) ↦ inr (row, p, ground (arith, e, p))
    ]

ended :
    (now : ℕ) (op_id sid state : String) (op : OperationRow) (s : Store)
    → IsJournal s
    → get_operation op_id s ≡ some op
    → IsEnded now op_id sid state op s
        (append_event now sid (state_changed state) (some op_id) (moved op_id sid state s)).1
unfolding get_operation get_session append_event current_max_cursor
ended now op_id sid state op s j p =
    let f : SessionRow → SessionRow = λ r. record r { state = state } in
    let m = moved-IsJournal op_id sid state s j in
    record {
      operation = ground (
        arith,
        p,
        fetch-update (λ (r : OperationRow). r.id == op_id) mark_done (λ r. refl) s.operations,
      );
      other_operations = λ id n.
          fetch-update_other (λ (r : OperationRow). r.id == op_id) (λ r. r.id == id) mark_done
            (λ r. refl) (λ r h. other_id op_id id r.id n h) s.operations;
      session = moved-session op_id sid state s;
      other_sessions = λ id n.
          fetch-update_other (λ (r : SessionRow). r.id == sid) (λ r. r.id == id) f (λ r. refl)
            (λ r h. other_id sid id r.id n h) s.sessions;
      events = λ reader limit.
          read_events-append_event now sid reader (state_changed state) (some op_id) limit
            (moved op_id sid state s) m;
      journal =
          append_event-IsJournal now sid (state_changed state) (some op_id)
            (moved op_id sid state s) m;
      apps = refl;
      keys = refl;
      pending = refl;
      artifacts = refl;
    }

-- Of a journal, finishing a lifecycle operation is a fault where there is none, and changes nothing
-- where the operation is done; otherwise it answers the operation as done, the operation is found
-- done and its session in the new state, other operations and sessions are as they were, and the
-- change of state is the one event that a reader of the session, who was up to date, gets next, and
-- none for a reader of another session.
pub finish_lifecycle-IsFinished :
    (now : ℕ) (op_id sid state : String) (s : Store)
    → IsJournal s
    → IsFinished now op_id sid state s (finish_lifecycle now op_id sid state s)
unfolding finish_lifecycle set_session_state state_event
finish_lifecycle-IsFinished now op_id sid state s j = elim (Option-cases (get_operation op_id s)) [
  | inl p ↦ inl (p, rw (p, finish_lifecycle) refl)
  | inr (op, p) ↦ elim (Bool-cases op.done) [
    | inl d ↦ inr (inl (op, p, d, rw (p, d, finish_lifecycle) refl))
    | inr d ↦
        let i = ended now op_id sid state op s j p in
        let s' =
          (append_event now sid (state_changed state) (some op_id) (moved op_id sid state s)).1 in
        inr (inr (op, s', p, d, ground (arith, p, d, i.operation), i))
  ]
]
