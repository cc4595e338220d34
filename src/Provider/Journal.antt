-- ===== src/Provider/Journal.antt =====
-- providers/local/barista_local_provider/store.py: the events, which are read from a cursor on.
use barista_apps.Prelude.{
  ℕ, suc, zero, String, ◌&&◌, Option, List, [], ◌∷◌, ◌++◌, ◌≡◌, refl, ◌==◌, text_equality,
  if◌then◌else◌, keep, arith, ◌≤◌, ◌<◌, ltb, All,
}
use barista_apps.Provider.Rows.{EventRow, EventData}
use barista_apps.Provider.Store.{
  Store, append_event, current_max_cursor, max_seq, read_events, take,
}

pub take-nil : {A : Type 0} (n : ℕ) → take {A = A} n [] ≡ []
take-nil zero = refl
take-nil (suc n) = refl

-- Sequence numbers grow, all of them above a bound.
abbrev pub Rising : ℕ → List EventRow → Type 0
Rising b [] = Unit
Rising b (e ∷ es) = (b < e.seq) × Rising e.seq es

-- The journal's invariant: the numbers grow and the counter is at least each of them.
unfoldable pub IsJournal : Store → Type 0
IsJournal s = Rising 0 s.events × All (λ e. e.seq ≤ s.last_seq) s.events

abbrev selected : String → ℕ → List EventRow → List EventRow
selected sid after es = keep (λ e. e.session_id == sid && ltb after e.seq) es

Rising-append :
    (b n : ℕ) (es : List EventRow) (e : EventRow)
    → b ≤ n
    → Rising b es
    → All (λ e. e.seq ≤ n) es
    → e.seq ≡ suc n
    → Rising b (es ++ e ∷ [])
Rising-append b n [] e le r a q = (omega arith, tt)
Rising-append b n (x ∷ es) e le r a q = (r.0, Rising-append x.seq n es e a.0 r.1 a.1 q)

bounded-append :
    (n : ℕ) (es : List EventRow) (e : EventRow)
    → All (λ e. e.seq ≤ n) es
    → e.seq ≡ suc n
    → All (λ e. e.seq ≤ suc n) (es ++ e ∷ [])
bounded-append n [] e a q = (omega arith, tt)
bounded-append n (x ∷ es) e a q = (ground (arith, a.0), bounded-append n es e a.1 q)

-- Appending an event keeps the journal's invariant: the sequence numbers grow and none is above the
-- counter.
pub append_event-IsJournal :
    (now : ℕ) (sid : String) (body : EventData) (op : Option String) (s : Store)
    → IsJournal s
    → IsJournal (append_event now sid body op s).1
unfolding append_event IsJournal
append_event-IsJournal now sid body op s (r, a) = (
  Rising-append 0 s.last_seq s.events _ (omega arith) r a refl,
  bounded-append s.last_seq s.events _ a refl,
)

selected-none :
    (sid : String) (n c : ℕ) (es : List EventRow)
    → All (λ e. e.seq ≤ n) es
    → max_seq sid es ≤ c
    → selected sid c es ≡ []
unfolding max_seq
selected-none sid n c [] a h = refl
selected-none sid n c (e ∷ es) a h = ground (arith, selected-none sid n c es a.1)

max_seq-bound :
    (sid : String) (n : ℕ) (es : List EventRow) → All (λ e. e.seq ≤ n) es → max_seq sid es ≤ n
unfolding max_seq
max_seq-bound sid n [] a = omega arith
max_seq-bound sid n (e ∷ es) a = ground (arith, max_seq-bound sid n es a.1, a.0)

selected-append :
    (sid : String) (c : ℕ) (es : List EventRow) (e : EventRow)
    → selected sid c (es ++ e ∷ []) ≡ selected sid c es ++ selected sid c (e ∷ [])
selected-append sid c [] e = refl
selected-append sid c (x ∷ es) e = ground (arith, selected-append sid c es e)

-- Reading past the newest cursor of a session gives nothing.
pub read_events-newest :
    (sid : String) (limit : ℕ) (s : Store)
    → IsJournal s
    → read_events sid (current_max_cursor sid s) limit s ≡ []
unfolding read_events current_max_cursor IsJournal
read_events-newest sid zero s (r, a) = refl
read_events-newest sid (suc limit) s (r, a) =
    ground (arith, selected-none sid s.last_seq (max_seq sid s.events) s.events a)

-- Of a journal, the event appended last is the one event that a reader of its session, who was up
-- to date, gets next, and a reader of another session gets nothing.
pub read_events-append_event :
    (now : ℕ) (sid reader : String) (body : EventData) (op : Option String) (limit : ℕ) (s : Store)
    → IsJournal s
    → read_events reader
        (current_max_cursor reader s)
        (suc limit)
        (append_event now sid body op s).1
      ≡ (if sid == reader
          then record {
            seq = suc s.last_seq;
            session_id = sid;
            operation_id = op;
            time = now;
            body = body;
          }
            ∷ []
          else [])
unfolding read_events current_max_cursor append_event IsJournal
read_events-append_event now sid reader body op limit s (r, a) =
    let c = max_seq reader s.events in
    let e : EventRow = record {
      seq = suc s.last_seq;
      session_id = sid;
      operation_id = op;
      time = now;
      body = body;
    } in
    rw (selected-append reader c s.events e) (
      rw (selected-none reader s.last_seq c s.events a (omega arith))
        (ground (arith, take-nil {A = EventRow} limit, max_seq-bound reader s.last_seq s.events a)))
