-- ===== src/Demo/Samples.antt =====
-- Runs of the demo's store at concrete inputs.
use barista_apps.Prelude.{
  Listed, map, Option, subst, arith, Mem, ℕ, suc, String, true, false, none, some, List, [], ◌∷◌,
  ◌≡◌, refl, inl, inr, ◌⊎◌, ◌≢◌, if◌then◌else◌, All, ◌==◌, text_equality,
}
use barista_apps.Prelude.Result.{ok, err}
use barista_apps.Prelude.Tables.{fetch, update, place, order_by, truthy}
use barista_apps.Prelude.Text.{decimal, decimal_from}
use barista_apps.Demo.Rows.{Comment, Delivery, Feature, EventContent, ProgramEvent}
use barista_apps.Demo.Store.{Store, value_error, record_program_event, is_event, same_content}
use barista_apps.Demo.Deliveries.{Request, claim_of, claim, new_delivery, conflict}
use barista_apps.Demo.Answers.{AnswerRequest, accept_answer, answered, accepted, advanced}
use barista_apps.Demo.Programs.{event}
use barista_apps.Demo.Features.{
  PlannedFeature, new_feature, ready_features, features_of, is_merged, is_none,
}
use barista_apps.Demo.Activities.{is_activity, new_activity, desire_activity}
use barista_apps.Demo.Claims.{Holds, Repeats, claim-IsExclusive, accept_answer-IsOnce}
use barista_apps.Demo.Distinct.{IsValid}
use barista_apps.Demo.Reach.{claiming, answering, Reaches, here, next, Reaches-IsValid}
use barista_apps.Demo.Refines.{Op, run, ideal, view, run_refines}
use barista_apps.Demo.Refines
use barista_apps.Demo.Programs.{new_program}
use barista_apps.Demo.Features.{Plan, planned}
use barista_apps.Demo.Progress.{needs_of, ready_features-ne-nil}
use barista_apps.Factory.Plan.Reachable.{IsOrder}
use barista_apps.Prelude.Dict.{find}
use barista_apps.Demo.Immutable.{record_program_event-IsImmutable}
use barista_apps.Demo.Ready.{Within, Merged, ready_features-AreMerged}
use barista_apps.Demo.Revisions.{desire_activity-IsStable}

abbrev store : Store
store = record {
  deliveries = [];
  comments = [];
  programs = [];
  features = [];
  external = [];
  projections = [];
  activities = [];
  events = [];
  deployments = [];
  scenarios = [];
}

abbrev request : Request
request = record {
  delivery_id = "d1";
  repository = "acme/shop";
  issue_number = 7;
  issue_uri = "https://x/7";
  run_name = "issue-7";
  workflow_kind = "issue";
  program_id = none;
  feature_id = none;
}

abbrev claimed : Store
claimed = record store { deliveries = new_delivery 5 request ∷ [] }

claim_run : claim 5 request store ≡ (ok (claim_of (new_delivery 5 request) true), claimed)
unfolding claim claim_of conflict fetch
claim_run = refl

claim-IsExclusive_example :
    (claimed ≡ record store { deliveries = new_delivery 5 request ∷ [] })
    × ((d : Delivery) × Holds (record request { delivery_id = "d2" }) claimed.deliveries d
        × (claim 9 (record request { delivery_id = "d2" }) claimed
            ≡ (ok (claim_of d false), claimed)))
unfolding claim_of
claim-IsExclusive_example =
    claim-IsExclusive 5 9 request (record request { delivery_id = "d2" }) store claimed
      (claim_of (new_delivery 5 request) true) claim_run refl (inr (refl, refl))

abbrev waiting : Store
waiting = record store {
  deliveries = record (new_delivery 5 request) { status = "awaiting_input" } ∷ [];
}

abbrev answer : AnswerRequest
answer = record {
  delivery_id = "c1";
  repository = "acme/shop";
  issue_number = 7;
  comment_id = 31;
  answer = "yes";
  run_name_prefix = "issue-7";
}

accept_answer-IsOnce_example :
    (accept_answer 9 answer (accept_answer 8 answer waiting).1
      ≡ (ok (none, "duplicate"), (accept_answer 8 answer waiting).1))
    × (((c : Comment) × Listed c waiting.comments
          × ((c.delivery_id ≡ "c1") ⊎ (c.comment_id ≡ 31))
          × (accept_answer 8 answer waiting ≡ (ok (none, "duplicate"), waiting)))
        ⊎ ((q : AnswerRequest)
            → Repeats answer q
            → accept_answer 9 q (accept_answer 8 answer waiting).1
              ≡ (ok (none, "duplicate"), (accept_answer 8 answer waiting).1)))
accept_answer-IsOnce_example = accept_answer-IsOnce 8 9 answer waiting

-- The second attempt of the run.
answer_run :
    (accept_answer 8 answer waiting).0
    ≡ ok (
      some (
          claim_of
            (advanced 8 answer
              (record (new_delivery 5 request) { status = "awaiting_input" })
              (new_delivery 5 request))
            true),
      "accepted",
    )
unfolding accept_answer answered accepted advanced claim_of fetch update truthy decimal decimal_from
answer_run = refl

abbrev journey : Reaches store (accept_answer 8 answer (claim 5 request store).1).1
journey =
    next (claim 5 request store).1 _ (next store _ here (claiming 5 request store))
      (answering 8 answer (claim 5 request store).1)

Reaches-IsValid_example : IsValid (accept_answer 8 answer (claim 5 request store).1).1.deliveries
Reaches-IsValid_example = Reaches-IsValid journey (record { distinct = tt; bounded = tt })

abbrev calls : List Op
calls =
    Refines.claim 1 "r1" "p1"
    ∷ Refines.claim 2 "r1" "p2"
    ∷ Refines.fail 3 "r1" "no host"
    ∷ Refines.complete 4 "r1"
        (record { text = "{}"; endpoint = "https://y"; deployment_id = "e1"; session_name = "s1" })
    ∷ []

run_refines_example : view (run calls store) "r1" ≡ ideal calls (view store) "r1"
run_refines_example = run_refines calls store "r1"

-- The failure closed the request for the program that opened it.
calls_run : ideal calls (view store) "r1" ≡ Refines.failed "p1"
unfolding ideal view
calls_run = refl

abbrev content : EventContent
content = event "work.created" "Product program opened" none "queued" [] []

abbrev recorded : Store
recorded = record store {
  events = record { program_id = "p1"; event_id = "e1"; content = content; occurred_at = 4 } ∷ [];
}

record_program_event-IsImmutable_example :
    ((p q : String) (e : ProgramEvent)
      → fetch (is_event p q) recorded.events ≡ some e
      → fetch
          (is_event p q)
          (record_program_event 9 "p1" "e1"
            (record content { title = "Other" })
            none
            recorded).1.events
        ≡ some e)
    × ((e : ProgramEvent)
        → fetch (is_event "p1" "e1") recorded.events ≡ some e
        → ((e.content ≡ record content { title = "Other" })
            × (record_program_event 9 "p1" "e1" (record content { title = "Other" }) none recorded
                ≡ (ok tt, recorded)))
          ⊎ ((e.content ≢ record content { title = "Other" })
              × (record_program_event 9 "p1" "e1" (record content { title = "Other" }) none recorded
                  ≡ (err value_error, recorded))))
    × ((fetch (is_event "p1" "e1") recorded.events ≡ none)
        → (record_program_event 9 "p1" "e1" (record content { title = "Other" }) none recorded).0
          ≡ ok tt)
    × ((t : Store)
        → record_program_event 9 "p1" "e1" (record content { title = "Other" }) none recorded
          ≡ (ok tt, t)
        → (e : ProgramEvent) × (fetch (is_event "p1" "e1") t.events ≡ some e)
          × (e.content ≡ record content { title = "Other" }))
record_program_event-IsImmutable_example =
    record_program_event-IsImmutable 9 "p1" "e1" (record content { title = "Other" }) none recorded

abbrev plan_of : String → List String → PlannedFeature
plan_of id dependencies = record {
  id = id;
  title = id;
  summary = "";
  acceptance_criteria = [];
  dependencies = dependencies;
}

abbrev second : Feature
second = record (new_feature 4 "p1" 2 (plan_of "f2" ("f1" ∷ []))) {
  status = "blocked";
  issue_number = some 12;
  issue_uri = some "https://x/12";
}

abbrev program_store : Store
program_store = record store {
  features = second ∷ record (new_feature 4 "p1" 1 (plan_of "f1" [])) { status = "merged" } ∷ [];
}

second_ready : Within second (ready_features "p1" program_store)
unfolding ready_features features_of is_merged order_by place
second_ready = inl refl

ready_features-AreMerged_example :
    Within second program_store.features
    × (second.program_id ≡ "p1")
    × (second.status ≡ "blocked")
    × (is_none second.issue_uri ≡ false)
    × All (Merged "p1" program_store) second.dependencies
ready_features-AreMerged_example = ready_features-AreMerged "p1" program_store second second_ready

abbrev sample_hash : String → String
sample_hash s = s

abbrev with_number : String → ℕ → String
with_number s n = s

abbrev active : Store
active = record store { activities = new_activity sample_hash with_number 3 "p1" "old" ∷ [] }

desire_activity-IsStable_example :
    (desire_activity sample_hash with_number 9 "p1" "new"
        (desire_activity sample_hash with_number 8 "p1" "new" active).1
      ≡ desire_activity sample_hash with_number 8 "p1" "new" active)
    × ((desire_activity sample_hash with_number 8 "p1" "new" active).0.1
        ≡ elim (fetch (is_activity "p1") active.activities) [
          | none ↦ 1
          | some a ↦
              if sample_hash a.source == sample_hash "new" then a.revision else suc a.revision
        ])
desire_activity-IsStable_example =
    desire_activity-IsStable sample_hash with_number 8 9 "p1" "new" active

abbrev order : List String
order = "f2" ∷ "f1" ∷ []

some_eq : {a b : List String} → Path (Option (List String)) (some a) (some b) → a ≡ b
some_eq h = cc

program_IsOrder : IsOrder (needs_of (features_of "p1" program_store)) order
unfolding features_of order_by place find
program_IsOrder = record {
  once = (refl, (refl, tt));
  ordered = (
    λ ds e. subst (λ ds. All (λ d. Mem d ("f1" ∷ [])) ds) (some_eq e) (refl, tt),
    (λ ds e. subst (λ ds. All (λ d. Mem d []) ds) (some_eq e) tt, tt),
  );
  inside = λ a m. ground arith;
}

ready_features-ne-nil_example : (g : Feature) × Within g (ready_features "p1" program_store)
unfolding features_of order_by place
ready_features-ne-nil_example =
    ready_features-ne-nil "p1" program_store (refl, (refl, tt)) (inl refl, (inr (refl, refl), tt))
      order second program_IsOrder (λ a m. ground arith) (inr (inl refl)) refl

abbrev plan : Plan
plan = record { text = "{}"; features = plan_of "f1" [] ∷ plan_of "f2" ("f1" ∷ []) ∷ [] }

-- A program without features, beside one that has some.
abbrev planning : Store
planning = record program_store {
  programs = new_program 1 "p2" (claim_of (new_delivery 5 request) true) ∷ [];
}

abbrev plan_event : ProgramEvent
plan_event = record {
  program_id = "p2";
  event_id = "plan-validated";
  content =
      event "plan.validated" "Dependency plan validated"
        (some "The source independently parsed a bounded acyclic plan.") "succeeded" []
        (("digest", "sha256:1") ∷ []);
  occurred_at = 9;
}

abbrev saved : Store
saved = record (planned 9 "p2" plan "sha256:1" planning) { events = plan_event ∷ [] }

-- Two features of a program that wait for an answer, each in its first attempt.
abbrev asking : Store
asking = record store {
  deliveries =
      record (new_delivery 5 request) { status = "awaiting_input"; program_id = some "p1" }
      ∷ record (new_delivery 5 (record request { delivery_id = "d2"; issue_number = 8 })) {
        status = "awaiting_input";
        program_id = some "p1";
      }
      ∷ [];
}

abbrev second_answer : AnswerRequest
second_answer = record answer { delivery_id = "c2"; issue_number = 8; comment_id = 32 }

abbrev standing : Store → List (String × ℕ)
standing s = map (λ d. (d.status, d.attempt)) s.deliveries

-- The second answer raises after it has been taken: its event has the identity of the first one's.
two_answers :
    ((accept_answer 9 second_answer (accept_answer 8 answer asking).1).0 ≡ err value_error)
    × (standing (accept_answer 9 second_answer (accept_answer 8 answer asking).1).1
        ≡ ("accepted", 2) ∷ ("accepted", 2) ∷ [])
unfolding accept_answer answered accepted advanced claim_of fetch update truthy decimal decimal_from
    record_program_event same_content
two_answers = (refl, refl)
