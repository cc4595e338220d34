-- ===== src/Provider/Retries.antt =====
-- providers/local/barista_local_provider/store.py: a request that is sent again with its key.
use barista_apps.Prelude.{
  ℕ, String, false, Option, some, ◌≡◌, refl, ◌==◌, text_equality, ==_refl, arith,
}
use barista_apps.Prelude.Result.{ok}
use barista_apps.Provider.Rows.{SessionRow, OperationRow}
use barista_apps.Provider.Store.{
  Store, Reservation, mark_done, get_session, insert_session, insert_pending, insert_key,
  reserve_creation, insert_reservation, reserved_row, idempotent_lookup, idempotent_record,
  get_operation, finish_lifecycle, set_session_state, state_event, append_event,
}
use barista_apps.Prelude.Tables.{fetch, truthy}
use barista_apps.Prelude.Tables.{fetch-update}

-- What is recorded under a key is what the key names from then on.
pub lookup-record :
    (now : ℕ) (k kind id : String) (s : Store)
    → (k == "") ≡ false
    → idempotent_lookup (some k) kind (idempotent_record now (some k) kind id s) ≡ some id
unfolding idempotent_lookup idempotent_record truthy fetch
lookup-record now k kind id s h = ground (arith, h, ==_refl k, ==_refl kind)

-- A creation that was reserved under a key is found again: whatever the retry carries, it answers
-- the session of the first request and leaves the store as that request did.
pub reserve_creation-IsIdempotent :
    (now later : ℕ) (r retry : Reservation) (k : String) (row : Option SessionRow) (s s' : Store)
    → (k == "") ≡ false
    → (r.sid == "") ≡ false
    → reserve_creation now r (some k) s ≡ ok (row, s')
    → reserve_creation later retry (some k) s' ≡ ok (row, s')
unfolding reserve_creation idempotent_lookup truthy insert_reservation get_session insert_session
    insert_pending insert_key fetch reserved_row
reserve_creation-IsIdempotent now later r retry k row s s' h g e =
    ground (arith, ==_refl k, ==_refl {T = String} "ensure")

-- A lifecycle operation that is finished stays as it is: finishing it again, with whatever state,
-- answers the same operation and leaves the store alone.
pub finish_lifecycle-IsIdempotent :
    (now later : ℕ) (op_id sid state other : String) (op : Option OperationRow) (s s' : Store)
    → finish_lifecycle now op_id sid state s ≡ ok (op, s')
    → finish_lifecycle later op_id sid other s' ≡ ok (op, s')
unfolding finish_lifecycle get_operation set_session_state state_event append_event
finish_lifecycle-IsIdempotent now later op_id sid state other op s s' e =
    ground
      (arith, fetch-update (λ (r : OperationRow). r.id == op_id) mark_done (λ r. refl) s.operations)
