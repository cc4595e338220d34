-- ===== src/Demo/Reach.antt =====
-- integrations/github-factory-demo/barista_github_factory_demo/store.py: what holds of the deliveries
-- after any sequence of its operations.
use barista_apps.Prelude.{
  ℕ, suc, String, false, ◌||◌, Option, none, some, [], ◌∷◌, ◌==◌, text_equality, any, leb, ltb,
  length, length-append, All-append, ◌≡◌, refl, inl, inr, arith, Bool-cases, Option-cases,
}
use barista_apps.Prelude.Tables.{fetch}
use barista_apps.Demo.Rows.{Outcome, Delivery}
use barista_apps.Demo.Store.{Store}
use barista_apps.Demo.Kept.{accepted-Keeps}
use barista_apps.Demo.Deliveries.{
  Request, has_id, is_issue, conflict, claim, new_delivery, update_delivery, mark_running, succeed,
  refuse, await_input, is_sha256, fail,
}
use barista_apps.Sdk.Names.{codes}
use barista_apps.Demo.Answers.{
  AnswerRequest, accept_answer, answered, advance, advanced, known_comment, answer_of,
}
use barista_apps.Demo.Distinct.{IsBounded, IsValid, Distinct-append, free, SameRow, update-IsValid}

-- One call that writes deliveries, from the tables before it to those after it, however it ends.
pub data Step : Store → Store → Type 0 where
  claiming : (now : ℕ) (r : Request) (s : Store) → Step s (claim now r s).1
  running : (now : ℕ) (id : String) (s : Store) → Step s (mark_running now id s).1
  succeeding : (now : ℕ) (id : String) (o : Outcome) (s : Store) → Step s (succeed now id o s).1
  refusing : (now : ℕ) (id : String) (o : Outcome) (s : Store) → Step s (refuse now id o s).1
  awaiting : (now : ℕ) (id : String) (o : Outcome) (s : Store) → Step s (await_input now id o s).1
  failing : (now : ℕ) (id message : String) (s : Store) → Step s (fail now id message s).1
  answering : (now : ℕ) (r : AnswerRequest) (s : Store) → Step s (accept_answer now r s).1

pub data Reaches (s : Store) : Store → Type 0 where
  here : Reaches s s
  next : (t u : Store) → Reaches s t → Step t u → Reaches s u

claim-IsValid :
    (now : ℕ) (r : Request) (s : Store)
    → IsValid s.deliveries
    → IsValid (claim now r s).1.deliveries
unfolding claim
claim-IsValid now r s v =
    elim (Option-cases (conflict r.delivery_id r.repository r.issue_number s.deliveries)) [
      | inr (d, p) ↦ rw (claim, p) v
      | inl p ↦
          rw (claim, p)
            (record {
              distinct =
                  Distinct-append s.deliveries (new_delivery now r) v.distinct
                    (free r.delivery_id r.repository r.issue_number s.deliveries p);
              bounded =
                  All-append IsBounded s.deliveries (new_delivery now r ∷ []) v.bounded
                    ((omega arith, omega arith), tt);
            })
    ]

update_delivery-IsValid :
    (id : String) (f : Delivery → Delivery) (s : Store)
    → SameRow (has_id id) f
    → ((d : Delivery) → IsBounded d → IsBounded (f d))
    → IsValid s.deliveries
    → IsValid (update_delivery id f s).1.deliveries
unfolding update_delivery
update_delivery-IsValid id f s h b v = elim (Bool-cases (any (has_id id) s.deliveries)) [
  | inl p ↦ rw p (update-IsValid (has_id id) f h b s.deliveries v)
  | inr p ↦ rw p v
]

await_input-IsValid :
    (now : ℕ) (id : String) (o : Outcome) (s : Store)
    → IsValid s.deliveries
    → IsValid (await_input now id o s).1.deliveries
unfolding await_input
await_input-IsValid now id o s v = elim (Option-cases o.question_digest) [
  | inl p ↦ rw p v
  | inr (digest, p) ↦ elim (Bool-cases (is_sha256 (codes digest))) [
    | inl q ↦ rw (p, q) (update_delivery-IsValid id _ s (λ d. (refl, refl, refl)) (λ d b. b) v)
    | inr q ↦ rw (p, q) v
  ]
]

advance-IsValid :
    (now : ℕ) (r : AnswerRequest) (d : Delivery) (s : Store)
    → (leb 20 (length d.answer_history) || ltb 100 (suc d.attempt)) ≡ false
    → IsValid s.deliveries
    → IsValid (advance now r d s).deliveries
unfolding advanced
advance-IsValid now r d s q v =
    update-IsValid (has_id d.delivery_id) (advanced now r d) (λ row. (refl, refl, refl))
      (λ row b.
        (ground (arith, q), ground (arith, q, length-append d.answer_history (answer_of r d ∷ []))))
      s.deliveries v

answered-IsValid :
    (now : ℕ) (r : AnswerRequest) (o : Option Delivery) (s : Store)
    → IsValid s.deliveries
    → IsValid (answered now r o s).1.deliveries
unfolding answered
answered-IsValid now r none s v = v
answered-IsValid now r (some d) s v = elim (Bool-cases (d.status == "awaiting_input")) [
  | inr p ↦ rw p v
  | inl p ↦ elim (Bool-cases (leb 20 (length d.answer_history) || ltb 100 (suc d.attempt))) [
    | inl q ↦ rw (p, q) v
    | inr q ↦
        rw (p, q)
          (accepted-Keeps (λ s. IsValid s.deliveries) (λ s es k. k) now r d s
            (advance-IsValid now r d s q v))
  ]
]

accept_answer-IsValid :
    (now : ℕ) (r : AnswerRequest) (s : Store)
    → IsValid s.deliveries
    → IsValid (accept_answer now r s).1.deliveries
unfolding accept_answer
accept_answer-IsValid now r s v = elim (Bool-cases (any (known_comment r) s.comments)) [
  | inl p ↦ rw p v
  | inr p ↦
      rw p (answered-IsValid now r (fetch (is_issue r.repository r.issue_number) s.deliveries) s v)
]

Step-IsValid : {s t : Store} → Step s t → IsValid s.deliveries → IsValid t.deliveries
unfolding mark_running succeed refuse fail
Step-IsValid (claiming now r s) v = claim-IsValid now r s v
Step-IsValid (running now id s) v =
    update_delivery-IsValid id _ s (λ d. (refl, refl, refl)) (λ d b. b) v
Step-IsValid (succeeding now id o s) v =
    update_delivery-IsValid id _ s (λ d. (refl, refl, refl)) (λ d b. b) v
Step-IsValid (refusing now id o s) v =
    update_delivery-IsValid id _ s (λ d. (refl, refl, refl)) (λ d b. b) v
Step-IsValid (awaiting now id o s) v = await_input-IsValid now id o s v
Step-IsValid (failing now id message s) v =
    update_delivery-IsValid id _ s (λ d. (refl, refl, refl)) (λ d b. b) v
Step-IsValid (answering now r s) v = accept_answer-IsValid now r s v

-- In whatever order deliveries are claimed, move on, fail and get their answers, and however each
-- call ends, no two of them have one identifier or one issue, none has more than a hundred attempts
-- and none more than twenty answers, where that held at the start.
pub Reaches-IsValid : {s t : Store} → Reaches s t → IsValid s.deliveries → IsValid t.deliveries
Reaches-IsValid here v = v
Reaches-IsValid (next t u r step) v = Step-IsValid step (Reaches-IsValid r v)
