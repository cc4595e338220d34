-- ===== src/Mission/Termination.antt =====
-- The search never runs out of its fuel, and what it reports is right: the whole result of a
-- search, in one statement.
use barista_apps.Prelude.{
  ℕ, zero, suc, ◌+◌, ◌*◌, ◌≤◌, ◌<◌, String, true, false, List, [], ◌∷◌, ◌≡◌, ◌≢◌, refl, sym, ◌==◌,
  text_equality, if◌then◌else◌, length, All, All_intro, Mem, arith, ==_iff, ==_refl, Bool-cases,
  inl, inr, ◌⊎◌, subst,
}
use barista_apps.Mission.Graph.{
  white, grey, black, Colours, paint, Stack, scan, closed, Search, finished, cyclic, spent, search,
  search_from, search_roots, search_fuel, pop,
}
use barista_apps.Mission.Trace.{Colour-cases, is_white, entered, push_all, scan-pushed, finish}
use barista_apps.Mission.Live.{Live, leave-Live, enter-Live}
use barista_apps.Mission.Acyclic.{rank-lt, Scan-cases, root-Inv, init-Inv}
use barista_apps.Mission.Cycles.{IsCycle, scan-closed, Linked-Upward}

abbrev weight : Stack → ℕ
weight [] = 0
weight ((x, true) ∷ s) = suc (weight s)
weight ((x, false) ∷ s) = suc (suc (weight s))

weight-push_all : (P : List String) (s : Stack) → weight (push_all P s) ≡ 2 * length P + weight s
weight-push_all [] s = omega arith
weight-push_all (d ∷ P) s = omega (arith, weight-push_all P s)

length-entered-le :
    (colour : Colours) (acc ds : List String)
    → length (entered colour acc ds) ≤ length acc + length ds
length-entered-le colour acc [] = omega arith
length-entered-le colour acc (d ∷ ds) =
    ground (arith, length-entered-le colour (d ∷ acc) ds, length-entered-le colour acc ds)

entered_none :
    (colour : Colours) (acc ds : List String)
    → All (λ d. colour d ≢ white) ds
    → entered colour acc ds ≡ acc
entered_none colour acc [] h = refl
entered_none colour acc (d ∷ ds) h = ground (arith, entered_none colour acc ds h.1)

module _ (deps : String → List String) (nodes : List String)
    (total : (x : String) → Mem x nodes ⊎ (deps x ≡ [])) where
  -- Two steps for each edge out of a white node.
  abbrev open_edges : Colours → List String → ℕ
  open_edges colour [] = 0
  open_edges colour (n ∷ ns) =
      let rest = open_edges colour ns in
      if is_white (colour n) then 2 * length (deps n) + rest else rest

  open_edges-paint_le :
      (colour : Colours) (x : String) (ns : List String)
      → open_edges (paint colour x grey) ns ≤ open_edges colour ns
  open_edges-paint_le colour x [] = omega arith
  open_edges-paint_le colour x (n ∷ ns) = ground (arith, open_edges-paint_le colour x ns)

  open_edges-paint_lt :
      (colour : Colours) (x : String) (ns : List String)
      → colour x ≡ white
      → Mem x ns
      → open_edges (paint colour x grey) ns + 2 * length (deps x) ≤ open_edges colour ns
  open_edges-paint_lt colour x [] w m = cc
  open_edges-paint_lt colour x (n ∷ ns) w m = elim (Bool-cases (n == x)) [
    | inl e ↦
        subst
          (λ y.
            open_edges (paint colour x grey) (y ∷ ns) + 2 * length (deps x)
            ≤ open_edges colour (y ∷ ns))
          (sym ((==_iff n x).0 e)) (ground (arith, open_edges-paint_le colour x ns, ==_refl x))
    | inr e ↦ ground (
      arith,
      open_edges-paint_lt colour x ns w (ground arith),
      open_edges-paint_le colour x ns,
      ==_iff n x,
    )
  ]

  open_edges-paint_black :
      (colour : Colours) (x : String) (ns : List String)
      → open_edges (paint colour x black) ns ≤ open_edges colour ns
  open_edges-paint_black colour x [] = omega arith
  open_edges-paint_black colour x (n ∷ ns) = ground (arith, open_edges-paint_black colour x ns)

  open_edges-le-search_fuel :
      (colour : Colours) (ns : List String) → 3 + open_edges colour ns ≤ search_fuel deps ns
  unfolding search_fuel
  open_edges-le-search_fuel colour [] = omega arith
  open_edges-le-search_fuel colour (n ∷ ns) = ground (arith, open_edges-le-search_fuel colour ns)

  module _ (F : List String) (colour : Colours) (path : List String) (x : String) (s : Stack)
      (v : Live deps F colour path ((x, false) ∷ s)) where
    abbrev found : List String
    found = entered (paint colour x grey) [] (deps x)

    -- A node that is entered again has nothing left to enter.
    found_again : Mem x F → found ≡ []
    found_again m = entered_none (paint colour x grey) [] (deps x) (
        All_intro (λ d. paint colour x grey d ≢ white) (deps x)
          λ d k e. ground (arith, v.done_marked d, rank-lt deps F x d v.inv.ordered m k))

    step_measure :
        2 * length found + open_edges (paint colour x grey) nodes ≤ open_edges colour nodes
    step_measure = elim (v.marked x) [
      | inl w ↦ elim (total x) [
        | inl m ↦ omega (
          arith,
          open_edges-paint_lt colour x nodes w m,
          length-entered-le (paint colour x grey) [] (deps x),
        )
        | inr e ↦ rw e (omega (arith, open_edges-paint_le colour x nodes))
      ]
      | inr (inl m) ↦ rw (found_again m) (omega (arith, open_edges-paint_le colour x nodes))
      | inr (inr m) ↦ absurd (ground (arith, v.sparse.0))
    ]

  -- What a result promises.
  abbrev pub Good : Search → Type 0
  Good (finished colour) = (F : List String) × Live deps F colour [] []
  Good (cyclic cycle) = IsCycle deps cycle
  Good spent = ⊥

  enter_closed :
      (F : List String) (colour : Colours) (path : List String) (x : String) (s : Stack)
      {cycle : List String}
      → Live deps F colour path ((x, false) ∷ s)
      → scan (paint colour x grey) (x ∷ path) (deps x) ((x, true) ∷ s) ≡ closed cycle
      → IsCycle deps cycle
  enter_closed F colour path x s v e =
      scan-closed deps (paint colour x grey) x path (deps x) ((x, true) ∷ s)
        (rw v.same_path (v.linked.0, Linked-Upward deps s v.linked.1))
        (λ k c. ground (arith, v.greys k, v.same_path, ==_iff x k))
        (All_intro (λ d. Mem d (deps x)) (deps x) (λ d m. m)) e

  search-Good :
      (fuel : ℕ) (colour : Colours) (path : List String) (stack : Stack) (F : List String)
      → Live deps F colour path stack
      → weight stack + open_edges colour nodes < fuel
      → Good (search deps fuel colour path stack)
  unfolding search
  search-Good zero colour path stack F v b = absurd (omega arith)
  search-Good (suc fuel) colour path [] F v b =
      (F, subst (λ p. Live deps F colour p []) v.same_path v)
  search-Good (suc fuel) colour path ((x, true) ∷ s) F v b =
      search-Good fuel (paint colour x black) (pop path) s (finish deps x F)
        (leave-Live deps F colour path x s v) (omega (arith, open_edges-paint_black colour x nodes))
  search-Good (suc fuel) colour path ((x, false) ∷ s) F v b =
      elim (Scan-cases deps (scan (paint colour x grey) (x ∷ path) (deps x) ((x, true) ∷ s))) [
        | inl (s', p) ↦
            let same = scan-pushed (paint colour x grey) (x ∷ path) ((x, true) ∷ s) (deps x) [] p in
            rw (p, search)
              (rw same (
                search-Good fuel (paint colour x grey) (x ∷ path)
                  (push_all (found F colour path x s v) ((x, true) ∷ s)) F
                  (enter-Live deps F colour path x s v p)
                  (omega (
                    arith,
                    step_measure F colour path x s v,
                    weight-push_all (found F colour path x s v) ((x, true) ∷ s),
                  ))))
        | inr (l, p) ↦ rw (p, search) (enter_closed F colour path x s v p)
      ]

  root-Live :
      (F : List String) (colour : Colours) (root : String)
      → Live deps F colour [] []
      → Live deps F colour [] ((root, false) ∷ [])
  root-Live F colour root v = record {
    inv = root-Inv deps F colour root v.inv;
    done_marked = v.done_marked;
    marked = v.marked;
    visited_marked = v.visited_marked;
    greys = v.greys;
    sparse = (refl, tt);
    linked = (tt, tt);
    same_path = refl;
  }

  Search-ind :
      (r : Search) (k : Colours → Search)
      → Good r
      → ((c : Colours) → Good (finished c) → Good (k c))
      → Good (elim r [ finished c ↦ k c | cyclic l ↦ cyclic l | spent ↦ spent ])
  Search-ind (finished c) k g h = h c g
  Search-ind (cyclic l) k g h = g
  Search-ind spent k g h = g

  search_from-Good :
      (fuel : ℕ) (colour : Colours) (roots : List String)
      → search_fuel deps nodes ≤ fuel
      → Good (finished colour)
      → Good (search_from deps fuel colour roots)
  unfolding search_from
  search_from-Good fuel colour [] b g = g
  search_from-Good fuel colour (root ∷ roots) b g = elim (Colour-cases (colour root)) [
    | inl p ↦
        rw (p, search_from)
          (Search-ind (search deps fuel colour [] ((root, false) ∷ [])) _
            (search-Good fuel colour [] ((root, false) ∷ []) g.0 (root-Live g.0 colour root g.1)
              (omega (arith, open_edges-le-search_fuel colour nodes)))
            (λ c g'. search_from-Good fuel c roots b g'))
    | inr (inl p) ↦ rw (p, search_from) (search_from-Good fuel colour roots b g)
    | inr (inr p) ↦ rw (p, search_from) (search_from-Good fuel colour roots b g)
  ]

  start-Live : Live deps [] (λ _. white) [] []
  start-Live = record {
    inv = init-Inv deps;
    done_marked = λ x m. cc;
    marked = λ x. inl refl;
    visited_marked = λ x m. cc;
    greys = λ x e. cc;
    sparse = tt;
    linked = tt;
    same_path = refl;
  }

  -- A search from all nodes with its fuel ends, and a cycle that it reports is one.
  pub search_roots-Good :
      (roots : List String) → Good (search_roots deps (search_fuel deps nodes) roots)
  unfolding search_roots
  search_roots-Good roots =
      search_from-Good (search_fuel deps nodes) (λ _. white) roots (omega arith) ([], start-Live)
