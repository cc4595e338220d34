-- ===== src/Provider/Deletion.antt =====
-- providers/local/barista_local_provider/store.py: what `delete_session` leaves behind.
use barista_apps.Prelude.{
  String, Bool, false, not, ◌&&◌, Option, none, some, List, [], ◌∷◌, ◌≡◌, ◌≢◌, ◌==◌, text_equality,
  ==_iff, keep, arith, Option-cases, inl, inr,
}
use barista_apps.Provider.Rows.{PendingRow, KeyRow}
use barista_apps.Provider.Store.{
  Store, get_session, pending_creation, idempotent_lookup, delete_session, purge_idempotency_for,
}
use barista_apps.Prelude.Tables.{fetch, truthy}
use barista_apps.Prelude.Tables.{fetch-keep-none, fetch-keep-some}

-- A key never names a row that is purged.
purged :
    (p : KeyRow → Bool) (sid : String) (rows : List KeyRow) (row : KeyRow)
    → fetch p (keep (λ r. not (r.resource_id == sid)) rows) ≡ some row
    → (row.resource_id == sid) ≡ false
unfolding fetch
purged p sid [] row e = ground arith
purged p sid (r ∷ rows) row e = ground (arith, purged p sid rows row)

pub lookup-purged :
    (sid : String) (key : Option String) (kind : String) (s : Store)
    → idempotent_lookup key kind (purge_idempotency_for sid s) ≢ some sid
unfolding idempotent_lookup purge_idempotency_for
lookup-purged sid key kind s e = elim (Option-cases (truthy key)) [
  | inl p ↦ ground (arith, p)
  | inr (k, p) ↦
      let o =
        fetch (λ (r : KeyRow). r.key == k && r.kind == kind)
          (keep (λ (r : KeyRow). not (r.resource_id == sid)) s.keys) in
      elim (Option-cases o) [
        | inl q ↦ ground (arith, p, q)
        | inr (row, q) ↦ ground (arith, p, q, purged _ sid s.keys row q, ==_iff row.resource_id sid)
      ]
]

-- After the deletion of a session the store has no session and no reserved creation of that
-- identifier, no idempotency key names it, and every other session is as it was.
pub delete_session-IsGone :
    (sid : String) (s : Store)
    → (get_session sid (delete_session sid s) ≡ none)
      × (pending_creation sid (delete_session sid s) ≡ none)
      × ((key : Option String) (kind : String)
          → idempotent_lookup key kind (delete_session sid s) ≢ some sid)
      × ((other : String)
          → other ≢ sid
          → get_session other (delete_session sid s) ≡ get_session other s)
unfolding delete_session get_session pending_creation purge_idempotency_for
delete_session-IsGone sid s = (
  fetch-keep-none _ _ (λ r e. ground arith) s.sessions,
  ground (
    arith,
    fetch-keep-none (λ (r : PendingRow). r.session_id == sid) (λ r. not (r.session_id == sid))
        (λ r e. ground arith) s.pending,
  ),
  λ key kind. lookup-purged sid key kind _,
  λ other n.
      fetch-keep-some _ _ (λ r e. ground (arith, ==_iff r.id other, ==_iff r.id sid)) s.sessions,
)
