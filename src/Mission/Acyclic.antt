-- ===== src/Mission/Acyclic.antt =====
-- A search that finishes has seen no dependency cycle, for there is none.
use barista_apps.Prelude.{
  ℕ, zero, suc, ◌<◌, ◌≤◌, String, true, false, List, [], ◌∷◌, ◌++◌, ◌≡◌, refl, ◌∙◌, sym, subst, ◌⊎◌,
  inl, inr, ◌==◌, text_equality, if◌then◌else◌, length, All-Mem, Mem, Subset, contains-append,
  arith, ==_iff, Bool-cases,
}
use barista_apps.Mission.Graph.{
  Colour, white, grey, black, Colours, paint, Stack, scan, pushed, closed, Scan, Search, finished,
  cyclic, spent, search, search_from, search_roots,
}
use barista_apps.Mission.Trace.{
  Colour-cases, scan-pushed, IsOrdered, Inv, finish, held, leave-Inv, held_leave, held_enter,
  enter-Inv,
}

-- `x` depends on `y`, directly or through other tasks.
pub data Depends (deps : String → List String) : String → String → Type 0 where
  direct : {x y : String} → Mem y (deps x) → Depends deps x y
  through : {x y z : String} → Mem y (deps x) → Depends deps y z → Depends deps x z

abbrev pub IsAcyclic : (String → List String) → Type 0
IsAcyclic deps = (x : String) → ¬ Depends deps x x

module _ (deps : String → List String) where
  -- The number of nodes that were finished no later.
  pub rank : List String → String → ℕ
  rank [] x = 0
  rank (y ∷ F) x = let r = rank F x in if y == x then suc (length F) else r

  rank-le-length : (F : List String) (x : String) → rank F x ≤ length F
  unfolding rank
  rank-le-length [] x = omega arith
  rank-le-length (y ∷ F) x = ground (arith, rank-le-length F x)

  pub rank-lt :
      (F : List String) (x d : String)
      → IsOrdered deps F
      → Mem x F
      → Mem d (deps x)
      → Mem d F × (rank F d < rank F x)
  unfolding rank
  rank-lt [] x d o m k = cc
  rank-lt (y ∷ F) x d o m k = elim (Bool-cases (y == x)) [
    | inl e ↦
        let same = (==_iff y x).0 e in
        let below = All-Mem (λ d. Mem d F) (deps x) d (rw same at o.1) k in
        ground (arith, rank-le-length F d, ==_iff y d, below)
    | inr e ↦ ground (arith, rank-lt F x d o.2 (ground arith) k, ==_iff y d)
  ]

  Depends-rank :
      (F : List String) {x y : String}
      → IsOrdered deps F
      → Mem x F
      → Depends deps x y
      → Mem y F × (rank F y < rank F x)
  Depends-rank F {x} {y} o m (direct k) = rank-lt F x y o m k
  Depends-rank F {x} {y} o m (through {y = w} k r) =
      let (here, less) = rank-lt F x w o m k in
      let (there, less') = Depends-rank F o here r in (there, omega arith)

  pub Scan-cases :
      (c : Scan) → ((s : Stack) × (c ≡ pushed s)) ⊎ ((l : List String) × (c ≡ closed l))
  Scan-cases (pushed s) = inl (s, refl)
  Scan-cases (closed l) = inr (l, refl)

  closed_ne : {l : List String} {last : Colours} {P : Type 0} → cyclic l ≡ finished last → P
  closed_ne e = cc

  -- What an ended search has finished.
  record Ended (colour : Colours) (before : List String) : Type 0 where
    F : List String
    inv : Inv deps F colour []
    kept : Subset before F

  search_sound :
      (fuel : ℕ) (colour : Colours) (path : List String) (stack : Stack) (F : List String)
      {last : Colours}
      → Inv deps F colour stack
      → search deps fuel colour path stack ≡ finished last
      → Ended last (held deps stack F)
  unfolding search
  search_sound zero colour path stack F v e = cc
  search_sound (suc fuel) colour path [] F v e = record {
    F = F;
    inv = subst (λ c. Inv deps F c []) (cc) v;
    kept = λ a m. m;
  }
  search_sound (suc fuel) colour path ((x, true) ∷ s) F v e =
      let r =
        search_sound fuel (paint colour x black) _ s (finish deps x F)
          (leave-Inv deps F colour x s v) e in
      record { F = r.F; inv = r.inv; kept = λ a m. r.kept a (held_leave deps x s F a m) }
  search_sound (suc fuel) colour path ((x, false) ∷ s) F {last = last} v e =
      elim (Scan-cases (scan (paint colour x grey) (x ∷ path) (deps x) ((x, true) ∷ s))) [
        | inl (s', p) ↦
            let same = scan-pushed (paint colour x grey) (x ∷ path) ((x, true) ∷ s) (deps x) [] p in
            let r =
              search_sound fuel (paint colour x grey) (x ∷ path) _ F
                (enter-Inv deps F colour (x ∷ path) x s v p) (rw (← same) (rw (p, search) at e)) in
            record {
              F = r.F;
              inv = r.inv;
              kept = λ a m. r.kept a (held_enter deps F colour (x ∷ path) x s a m);
            }
        | inr (c, p) ↦ closed_ne (rw (p, search) at e)
      ]

  Search-cases :
      (r : Search)
      → ((c : Colours) × (r ≡ finished c)) ⊎ (((l : List String) × (r ≡ cyclic l)) ⊎ (r ≡ spent))
  Search-cases (finished c) = inl (c, refl)
  Search-cases (cyclic l) = inr (inl (l, refl))
  Search-cases spent = inr (inr refl)

  spent_ne : {last : Colours} {P : Type 0} → spent ≡ finished last → P
  spent_ne e = cc

  abbrev pub start : Colours
  start = λ _. white

  pub init-Inv : Inv deps [] start []
  init-Inv = record { ordered = tt; blacks = λ x e. cc; seen = λ x. inl refl; covers = tt }

  pub root-Inv :
      (F : List String) (colour : Colours) (root : String)
      → Inv deps F colour []
      → Inv deps F colour ((root, false) ∷ [])
  root-Inv F colour root v = record {
    ordered = v.ordered;
    blacks = v.blacks;
    seen = λ a. ground (arith, v.seen a);
    covers = tt;
  }

  skipped :
      (root : String) (roots F : List String) {last : Colours}
      → Mem root F
      → Ended last (roots ++ F)
      → Ended last (root ∷ (roots ++ F))
  skipped root roots F m r = record {
    F = r.F;
    inv = r.inv;
    kept = λ a k. ground (arith, r.kept a, contains-append roots F a, ==_iff root a);
  }

  joined :
      (root : String) (roots F : List String) {c last : Colours} (r : Ended c (root ∷ F))
      → Ended last (roots ++ r.F)
      → Ended last (root ∷ (roots ++ F))
  joined root roots F r t = record {
    F = t.F;
    inv = t.inv;
    kept = λ a k.
        ground (arith, r.kept a, t.kept a, contains-append roots F a, contains-append roots r.F a);
  }

  found :
      {F : List String} {colour : Colours} {root : String} {c : Colour}
      → Inv deps F colour []
      → colour root ≡ c
      → (c ≡ white → ⊥)
      → Mem root F
  found {root = root} v p n = elim (v.seen root) [ inl w ↦ absurd (n (sym p ∙ w)) | inr m ↦ m ]

  search_from_sound :
      (fuel : ℕ) (colour : Colours) (roots F : List String) {last : Colours}
      → Inv deps F colour []
      → search_from deps fuel colour roots ≡ finished last
      → Ended last (roots ++ F)
  unfolding search_from
  search_from_sound fuel colour [] F v e = record {
    F = F;
    inv = subst (λ c. Inv deps F c []) (cc) v;
    kept = λ a m. m;
  }
  search_from_sound fuel colour (root ∷ roots) F v e = elim (Colour-cases (colour root)) [
    | inl p ↦ elim (Search-cases (search deps fuel colour [] ((root, false) ∷ []))) [
      | inl (c, q) ↦
          let r = search_sound fuel colour [] ((root, false) ∷ []) F (root-Inv F colour root v) q in
          joined root roots F r
            (search_from_sound fuel c roots r.F r.inv (rw (p, q, search_from) at e))
      | inr (inl (l, q)) ↦ closed_ne (rw (p, q, search_from) at e)
      | inr (inr q) ↦ spent_ne (rw (p, q, search_from) at e)
    ]
    | inr (inl p) ↦
        skipped root roots F (found v p (λ w. cc))
          (search_from_sound fuel colour roots F v (rw (p, search_from) at e))
    | inr (inr p) ↦
        skipped root roots F (found v p (λ w. cc))
          (search_from_sound fuel colour roots F v (rw (p, search_from) at e))
  ]

-- A search of all the nodes that finishes has met no cycle among them, for there is none.
pub search_roots_sound :
    (deps : String → List String) (fuel : ℕ) (roots : List String) (last : Colours)
    → search_roots deps fuel roots ≡ finished last
    → (x : String) → Mem x roots
    → ¬ Depends deps x x
unfolding search_roots
search_roots_sound deps fuel roots last e x m cycle =
    let r = search_from_sound deps fuel (start deps) roots [] (init-Inv deps) e in
    let m' = r.kept x (contains-append roots [] x ∙ ground (arith, m)) in
    let (_, less) = Depends-rank deps r.F r.inv.ordered m' cycle in omega arith
