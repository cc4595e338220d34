-- ===== src/Demo/Kept.antt =====
-- integrations/github-factory-demo/barista_github_factory_demo/store.py: a statement of the tables
-- that does not read the events is kept where an event is recorded.
use barista_apps.Prelude.{ℕ, String, Option, none, some, List, inl, inr, Bool-cases, Option-cases}
use barista_apps.Prelude.Action.{Keeps, >>=-Keeps}
use barista_apps.Prelude.Tables.{fetch, truthy}
use barista_apps.Demo.Rows.{Delivery, EventContent, ProgramEvent}
use barista_apps.Demo.Store.{
  Store, Fault, type_error, expected, record_program_event, is_event, same_content,
}
use barista_apps.Demo.Deliveries.{has_id}
use barista_apps.Demo.Answers.{AnswerRequest, accepted, announced, disposed, advance}

-- A statement that does not read the events.
abbrev pub IsBlind : (Store → Type 0) → Type 0
IsBlind K = (s : Store) (es : List ProgramEvent) → K s → K (record s { events = es })

module _ (K : Store → Type 0) (blind : IsBlind K) where
  pub record_program_event-Keeps :
      (now : ℕ) (pid eid : String) (content : EventContent) (at : Option ℕ)
      → Keeps K (record_program_event now pid eid content at)
  unfolding record_program_event
  record_program_event-Keeps now pid eid content at s k =
      elim (Option-cases (fetch (is_event pid eid) s.events)) [
        | inl p ↦ rw p (blind s _ k)
        | inr (old, p) ↦ elim (Bool-cases (same_content old.content content)) [
          | inl q ↦ rw (p, q) k
          | inr q ↦ rw (p, q) k
        ]
      ]

  announced-Keeps :
      (now : ℕ) (r : AnswerRequest) (d : Delivery) (pid : Option String)
      → Keeps K (announced now r d pid)
  announced-Keeps now r d none = λ s k. k
  announced-Keeps now r d (some pid) = record_program_event-Keeps now pid _ _ _

  expected-Keeps : {A : Type 0} (e : Fault) (o : Option A) → Keeps K (expected e o)
  expected-Keeps e none s k = k
  expected-Keeps e (some d) s k = k

  pub accepted-Keeps :
      (now : ℕ) (r : AnswerRequest) (d : Delivery) (s : Store)
      → K (disposed now r "accepted" (advance now r d s))
      → K (accepted now r d s).1
  unfolding accepted
  accepted-Keeps now r d s k =
      let t = disposed now r "accepted" (advance now r d s) in
      >>=-Keeps K (announced now r d (truthy d.program_id)) _
        (announced-Keeps now r d (truthy d.program_id))
        (λ _.
          >>=-Keeps K (expected type_error (fetch (has_id d.delivery_id) t.deliveries)) _
            (expected-Keeps type_error _) (λ updated s k. k))
        t k
