-- ===== src/Factory/Plan/Schedule.antt =====
-- apps/factory/barista_app_factory/product_program.py: the plans that have an order are those whose
-- graph is accepted.
use barista_apps.Prelude.{
  ℕ, zero, suc, ◌<◌, String, true, false, some, List, [], ◌∷◌, ◌==◌, text_equality, ==_iff,
  contains, length, length-Nodup, All, All_map, All_intro, All-Mem, Mem, Mem-tail, Mem-cons, Subset,
  Nodup, if◌then◌else◌, ◌≡◌, ◌≢◌, refl, sym, ◌∙◌, ap, subst, ◌↔◌, inl, inr, arith, Bool-cases,
}
use barista_apps.Prelude.Dict.{find}
use barista_apps.Prelude.Result.{err, ok}
use barista_apps.Factory.Plan.Fuel.{visited_all-Ends}
use barista_apps.Factory.Plan.{out_of_fuel, Graph, nodes, Visit, visit_each, visit, visited_all}
use barista_apps.Factory.Plan.Reachable.{Ordered, IsOrder, visit-Grows, visit_each-Grows}

-- How many nodes stand behind the first of a name.
abbrev rank : List String → String → ℕ
rank [] n = 0
rank (x ∷ xs) n = if x == n then length xs else rank xs n

rank_lt : (xs : List String) (n : String) → Mem n xs → rank xs n < length xs
rank_lt [] n m = cc
rank_lt (x ∷ xs) n m = ground (arith, rank_lt xs n)

rank_tail :
    (x d : String) (xs : List String)
    → contains xs x ≡ false
    → Mem d xs
    → rank (x ∷ xs) d ≡ rank xs d
rank_tail x d xs n m = elim (Bool-cases (x == d)) [
  | inl e ↦ absurd (ground (arith, n, subst (λ d. contains xs d ≡ true) (sym ((==_iff x d).0 e)) m))
  | inr e ↦ rw e refl
]

-- What a node depends on stands behind it.
behind :
    (graph : Graph) (order : List String) (n : String) (ds : List String)
    → Nodup order
    → Ordered graph order
    → Mem n order
    → find graph n ≡ some ds
    → All (λ d. Mem d order × rank order d < rank order n) ds
behind graph [] n ds u o m f = cc
behind graph (x ∷ xs) n ds u o m f = elim (Bool-cases (x == n)) [
  | inl e ↦
      All_map (λ d k. (Mem-tail x d xs k, rw (e, rank_tail x d xs u.0 k) (rank_lt xs d k))) ds
        (o.0 ds (ap (find graph) ((==_iff x n).0 e) ∙ f))
  | inr e ↦
      All_map (λ d k. (Mem-tail x d xs k.0, rw (e, rank_tail x d xs u.0 k.0) k.1)) ds
        (behind graph xs n ds u.1 o.1 (ground arith) f)
]

find-eq-some :
    (graph : Graph) (n : String)
    → Mem n (nodes graph)
    → (ds : List String) × (find graph n ≡ some ds)
unfolding find
find-eq-some [] n m = cc
find-eq-some ((k, v) ∷ graph) n m = elim (Bool-cases (k == n)) [
  | inl e ↦ (v, ground (arith, ==_iff k n, ==_iff n k))
  | inr e ↦
      let (ds, f) = find-eq-some graph n (ground (arith, ==_iff k n, ==_iff n k)) in
      (ds, ground (arith, f, e, ==_iff k n, ==_iff n k))
]

-- A search returns from each node, whatever was visited.
abbrev Returns : Visit → String → Type 0
Returns step n = (visited : List String) → (after : List String) × (step visited n ≡ ok after)

visit_each-Returns :
    (step : Visit) (ns visited : List String)
    → All (Returns step) ns
    → (after : List String) × (visit_each step visited ns ≡ ok after)
unfolding visit_each
visit_each-Returns step [] visited h = (visited, refl)
visit_each-Returns step (n ∷ ns) visited h =
    let (next, p) = h.0 visited in
    let (after, q) = visit_each-Returns step ns next h.1 in (after, rw p q)

module _ (graph : Graph) (order : List String) (o : IsOrder graph order) where
  -- The nodes on the path to a node stand before it.
  abbrev Above : List String → String → Type 0
  Above visiting n = (p : String) → Mem p visiting → rank order n < rank order p

  visit-Returns :
      (fuel : ℕ) (visiting : List String) (n : String)
      → Mem n order
      → rank order n < fuel
      → Above visiting n
      → Returns (visit fuel graph visiting) n
  unfolding visit
  visit-Returns zero visiting n m r a visited = absurd (omega arith)
  visit-Returns (suc fuel) visiting n m r a visited = elim (Bool-cases (contains visiting n)) [
    | inl v ↦ absurd (omega (arith, a n v))
    | inr v ↦ elim (Bool-cases (contains visited n)) [
      | inl w ↦ (visited, rw (visit, v, w) refl)
      | inr w ↦
          let (ds, f) = find-eq-some graph n (o.inside n m) in
          let below = behind graph order n ds o.once o.ordered m f in
          let (next, p) = visit_each-Returns (visit fuel graph (n ∷ visiting)) ds visited (
            All_map
              (λ d b. visit-Returns fuel (n ∷ visiting) d b.0 (omega (arith, r, b.1)) (λ p k.
                elim (Mem-cons n p visiting k) [
                  | inl e ↦ subst (λ p. rank order d < rank order p) e b.1
                  | inr k' ↦ omega (arith, b.1, a p k')
                ]))
              ds below) in
          (n ∷ next, rw (visit, v, w, f, p) refl)
    ]
  ]

accepted_iff :
    (graph : Graph)
    → ((after : List String) × (visited_all graph ≡ ok after))
      ↔ ((order : List String) × IsOrder graph order × Subset (nodes graph) order)
unfolding visited_all
accepted_iff graph = (
  λ (after, h).
      let (g, all) =
        visit_each-Grows graph (visit (suc (length (nodes graph))) graph []) []
          (visit-Grows graph (suc (length (nodes graph))) []) [] (nodes graph) after
          (record { once = tt; ordered = tt; inside = λ a m. cc }) h in
      (after, g.order, λ a m. All-Mem (λ n. Mem n after) (nodes graph) a all m),
  λ (order, o, covers).
      visit_each-Returns (visit (suc (length (nodes graph))) graph []) (nodes graph) [] (
        All_intro (Returns (visit (suc (length (nodes graph))) graph [])) (nodes graph) (λ n m.
          visit-Returns graph order o (suc (length (nodes graph))) [] n (covers n m)
            (omega (
              arith,
              rank_lt order n (covers n m),
              length-Nodup order (nodes graph) o.once o.inside,
            ))
            (λ p k. cc))),
)

-- The search through a graph ends within its fuel, and returns exactly where its nodes have an order
-- in which each comes before those that it depends on: it refuses no graph that has one, in whatever
-- order its nodes are listed, and accepts no graph with a cycle or an unknown node.
pub visited_all-eq-ok :
    (graph : Graph)
    → (((after : List String) × (visited_all graph ≡ ok after))
        ↔ ((order : List String) × IsOrder graph order × Subset (nodes graph) order))
      × (visited_all graph ≢ err out_of_fuel)
visited_all-eq-ok graph = (accepted_iff graph, visited_all-Ends graph)
