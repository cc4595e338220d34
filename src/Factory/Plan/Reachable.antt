-- ===== src/Factory/Plan/Reachable.antt =====
-- apps/factory/barista_app_factory/product_program.py: the order in which a search leaves the nodes.
use barista_apps.Prelude.{
  ℕ, zero, suc, String, false, Option, some, List, [], ◌∷◌, ◌==◌, text_equality, ==_iff, contains,
  All, Mem, Mem-head, Mem-tail, Subset, Nodup, ◌≡◌, sym, ◌∙◌, subst, inl, inr, arith, Bool-cases,
  Option-cases,
}
use barista_apps.Prelude.Dict.{find}
use barista_apps.Prelude.Result.{Result, ok, err, >>=-eq-ok}
use barista_apps.Factory.Plan.{PlanError, Graph, nodes, Visit, visit_each, visit}

-- The dependencies of a node are among others.
abbrev pub Needs : Graph → String → List String → Type 0
Needs graph n others = (ds : List String) → find graph n ≡ some ds → All (λ d. Mem d others) ds

-- Each node stands before those that it depends on.
abbrev pub Ordered : Graph → List String → Type 0
Ordered graph [] = Unit
Ordered graph (n ∷ ns) = Needs graph n ns × Ordered graph ns

-- Nodes of the graph, each once, and each before those that it depends on.
pub record IsOrder (graph : Graph) (order : List String) : Type 0 where
  pub once : Nodup order
  pub ordered : Ordered graph order
  pub inside : Subset order (nodes graph)

-- What a search adds to the nodes that were visited.
pub record Grows (graph : Graph) (visiting visited after : List String) : Type 0 where
  pub order : IsOrder graph after
  pub keeps : Subset visited after
  pub avoids : (p : String) → Mem p visiting → contains visited p ≡ false → contains after p ≡ false

ok_eq : {a b : List String} → Path (Result PlanError (List String)) (ok a) (ok b) → a ≡ b
ok_eq h = cc

some_eq : {a b : List String} → Path (Option (List String)) (some a) (some b) → a ≡ b
some_eq h = cc

err_ne :
    {e : PlanError} {b : List String} → Path (Result PlanError (List String)) (err e) (ok b) → ⊥
err_ne h = cc

Grows-refl :
    (graph : Graph) (visiting visited : List String)
    → IsOrder graph visited
    → Grows graph visiting visited visited
Grows-refl graph visiting visited o = record { order = o; keeps = λ a m. m; avoids = λ p m n. n }

Grows-trans :
    (graph : Graph) (visiting a b c : List String)
    → Grows graph visiting a b
    → Grows graph visiting b c
    → Grows graph visiting a c
Grows-trans graph visiting a b c g h = record {
  order = h.order;
  keeps = λ x m. h.keeps x (g.keeps x m);
  avoids = λ p m n. h.avoids p m (g.avoids p m n);
}

pub find-Mem :
    (graph : Graph) (n : String) (ds : List String) → find graph n ≡ some ds → Mem n (nodes graph)
unfolding find
find-Mem [] n ds h = cc
find-Mem ((k, v) ∷ graph) n ds h = ground (arith, find-Mem graph n ds, ==_iff n k, ==_iff k n)

module _ (graph : Graph) where
  pub visit_each-Grows :
      (step : Visit) (visiting : List String)
      → ((visited : List String) (n : String) (after : List String)
          → IsOrder graph visited
          → step visited n ≡ ok after
          → Grows graph visiting visited after × Mem n after)
      → (visited ns after : List String) → IsOrder graph visited
      → visit_each step visited ns ≡ ok after
      → Grows graph visiting visited after × All (λ n. Mem n after) ns
  unfolding visit_each
  visit_each-Grows step visiting s visited [] after o h = (
    subst (λ v. Grows graph visiting visited v) (ok_eq h) (Grows-refl graph visiting visited o),
    tt,
  )
  visit_each-Grows step visiting s visited (n ∷ ns) after o h =
      let (next, p, q) = >>=-eq-ok (step visited n) _ h in
      let (g, m) = s visited n next o p in
      let (k, all) = visit_each-Grows step visiting s next ns after g.order q in
      (Grows-trans graph visiting visited next after g k, (k.keeps n m, all))

  -- A node that is left comes before those that were visited for it.
  left :
      (visiting visited next : List String) (n : String) (ds : List String)
      → contains visiting n ≡ false
      → contains visited n ≡ false
      → find graph n ≡ some ds
      → Grows graph (n ∷ visiting) visited next
      → All (λ d. Mem d next) ds
      → Grows graph visiting visited (n ∷ next)
  left visiting visited next n ds v w f g all = record {
    order = record {
      once = (g.avoids n (Mem-head n visiting) w, g.order.once);
      ordered = (
        λ es e. subst (λ es. All (λ d. Mem d next) es) (some_eq (sym f ∙ e)) all,
        g.order.ordered,
      );
      inside = λ a m. elim (Bool-cases (n == a)) [
        | inl e ↦ subst (λ a. Mem a (nodes graph)) ((==_iff n a).0 e) (find-Mem graph n ds f)
        | inr e ↦ g.order.inside a (ground arith)
      ];
    };
    keeps = λ a m. Mem-tail n a next (g.keeps a m);
    avoids = λ p m o. elim (Bool-cases (n == p)) [
      | inl e ↦
          absurd (ground (arith, subst (λ n. contains visiting n ≡ false) ((==_iff n p).0 e) v))
      | inr e ↦ ground (arith, g.avoids p (Mem-tail n p visiting m) o)
    ];
  }

  pub visit-Grows :
      (fuel : ℕ) (visiting visited : List String) (n : String) (after : List String)
      → IsOrder graph visited
      → visit fuel graph visiting visited n ≡ ok after
      → Grows graph visiting visited after × Mem n after
  unfolding visit
  visit-Grows zero visiting visited n after o h = absurd (err_ne h)
  visit-Grows (suc fuel) visiting visited n after o h = elim (Bool-cases (contains visiting n)) [
    | inl v ↦ absurd (err_ne (rw (visit, v) at h))
    | inr v ↦ elim (Bool-cases (contains visited n)) [
      | inl w ↦
          let e = ok_eq (rw (visit, v, w) at h) in
          (
            subst (λ a. Grows graph visiting visited a) e (Grows-refl graph visiting visited o),
            subst (λ a. Mem n a) e w,
          )
      | inr w ↦ elim (Option-cases (find graph n)) [
        | inl f ↦ absurd (err_ne (rw (visit, v, w, f) at h))
        | inr (ds, f) ↦
            let (next, p, q) =
              >>=-eq-ok (visit_each (visit fuel graph (n ∷ visiting)) visited ds) _
                (rw (visit, v, w, f) at h) in
            let (g, all) =
              visit_each-Grows (visit fuel graph (n ∷ visiting)) (n ∷ visiting)
                (visit-Grows fuel (n ∷ visiting)) visited ds next o p in
            (
              subst (λ a. Grows graph visiting visited a) (ok_eq q)
                  (left visiting visited next n ds v w f g all),
              subst (λ a. Mem n a) (ok_eq q) (Mem-head n next),
            )
      ]
    ]
  ]
