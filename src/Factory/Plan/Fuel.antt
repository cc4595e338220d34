-- ===== src/Factory/Plan/Fuel.antt =====
-- apps/factory/barista_app_factory/product_program.py: the search for cycles ends.
use barista_apps.Prelude.{
  ℕ, zero, suc, ◌+◌, ◌<◌, String, List, [], ◌∷◌, text_equality, contains, length, length-Nodup, Mem,
  Mem-cons, Subset, Nodup, ◌≢◌, subst, inl, inr, arith, Bool-cases, Option-cases,
}
use barista_apps.Prelude.Dict.{find}
use barista_apps.Prelude.Result.{Result, ok, err, ◌>>=◌}
use barista_apps.Factory.Plan.{
  PlanError, out_of_fuel, Graph, nodes, Visit, visit_each, visit, visited_all,
}
use barista_apps.Factory.Plan.Reachable.{find-Mem}

abbrev Ends : Result PlanError (List String) → Type 0
Ends r = r ≢ err out_of_fuel

>>=-Ends :
    (r : Result PlanError (List String)) (k : List String → Result PlanError (List String))
    → Ends r
    → ((visited : List String) → Ends (k visited))
    → Ends (r >>= k)
>>=-Ends (ok visited) k h j = j visited
>>=-Ends (err e) k h j = h

visit_each-Ends :
    (step : Visit) (ns visited : List String)
    → ((visited : List String) (n : String) → Ends (step visited n))
    → Ends (visit_each step visited ns)
unfolding visit_each
visit_each-Ends step [] visited h = λ e. cc
visit_each-Ends step (n ∷ ns) visited h =
    >>=-Ends (step visited n) _ (h visited n) (λ after. visit_each-Ends step ns after h)

-- A path has no node twice, so that it is never longer than the graph has nodes.
visit-Ends :
    (graph : Graph) (fuel : ℕ) (visiting visited : List String) (n : String)
    → Nodup visiting
    → Subset visiting (nodes graph)
    → length (nodes graph) < length visiting + fuel
    → Ends (visit fuel graph visiting visited n)
unfolding visit
visit-Ends graph zero visiting visited n u i lt =
    absurd (omega (arith, length-Nodup visiting (nodes graph) u i))
visit-Ends graph (suc fuel) visiting visited n u i lt = elim (Bool-cases (contains visiting n)) [
  | inl v ↦ rw (visit, v) (λ e. cc)
  | inr v ↦ elim (Bool-cases (contains visited n)) [
    | inl w ↦ rw (visit, v, w) (λ e. cc)
    | inr w ↦ elim (Option-cases (find graph n)) [
      | inl f ↦ rw (visit, v, w, f) (λ e. cc)
      | inr (ds, f) ↦
          rw (visit, v, w, f)
            (>>=-Ends (visit_each (visit fuel graph (n ∷ visiting)) visited ds) _
              (visit_each-Ends (visit fuel graph (n ∷ visiting)) ds visited (λ visited m.
                visit-Ends graph fuel (n ∷ visiting) visited m (v, u)
                  (λ a k. elim (Mem-cons n a visiting k) [
                    | inl e ↦ subst (λ a. Mem a (nodes graph)) e (find-Mem graph n ds f)
                    | inr k' ↦ i a k'
                  ])
                  (omega (arith, lt))))
              (λ after e. cc))
    ]
  ]
]

pub visited_all-Ends : (graph : Graph) → visited_all graph ≢ err out_of_fuel
unfolding visited_all
visited_all-Ends graph =
    visit_each-Ends (visit (suc (length (nodes graph))) graph []) (nodes graph) [] (λ visited n.
      visit-Ends graph (suc (length (nodes graph))) [] visited n tt (λ a m. cc) (omega arith))
