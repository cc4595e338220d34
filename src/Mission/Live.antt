-- ===== src/Mission/Live.antt =====
-- The invariant of the search while it runs: how the colours, the stack and the path agree.
use barista_apps.Prelude.{
  String, true, false, List, [], ◌∷◌, ◌≡◌, ◌≢◌, refl, ◌∙◌, sym, ap, subst, ◌⊎◌, inl, inr,
  text_equality, contains, All, All_all, All_intro, Mem, arith, ==_iff, Bool-cases,
}
use barista_apps.Mission.Graph.{
  Colour, white, grey, black, Colours, paint, Stack, scan, pushed, pop,
}
use barista_apps.Mission.Trace.{
  push_all, entered, is_white, Inv, finish, leave-Inv, contains-finish, enter-Inv,
}

-- The nodes that are being visited, innermost first.
abbrev pub trues : Stack → List String
trues [] = []
trues ((x, true) ∷ s) = x ∷ trues s
trues ((x, false) ∷ s) = trues s

-- No node waits above the place where it is being visited.
abbrev pub Sparse : Stack → Type 0
Sparse [] = Unit
Sparse ((x, true) ∷ s) = Sparse s
Sparse ((x, false) ∷ s) = (contains (trues s) x ≡ false) × Sparse s

module _ (deps : String → List String) where
  -- The node is a dependency of the innermost one, if there is any.
  abbrev pub Child : String → List String → Type 0
  Child d [] = Unit
  Child d (y ∷ ys) = Mem d (deps y)

  abbrev pub Linked : Stack → Type 0
  Linked [] = Unit
  Linked ((x, b) ∷ s) = Child x (trues s) × Linked s

  pub record Live (F : List String) (colour : Colours) (path : List String) (stack : Stack)
      : Type 0 where
    pub inv : Inv deps F colour stack
    pub done_marked : (x : String) → Mem x F → colour x ≢ white
    pub marked : (x : String) → (colour x ≡ white) ⊎ (Mem x F ⊎ Mem x (trues stack))
    pub visited_marked : (x : String) → Mem x (trues stack) → colour x ≢ white
    pub greys : (x : String) → colour x ≡ grey → Mem x (trues stack)
    pub sparse : Sparse stack
    pub linked : Linked stack
    pub same_path : path ≡ trues stack

  pub leave-Live :
      (F : List String) (colour : Colours) (path : List String) (x : String) (s : Stack)
      → Live F colour path ((x, true) ∷ s)
      → Live (finish deps x F) (paint colour x black) (pop path) s
  leave-Live F colour path x s v = record {
    inv = leave-Inv deps F colour x s v.inv;
    done_marked = λ a m e. ground (arith, v.done_marked a, contains-finish deps x F a, ==_iff x a);
    marked = λ a. ground (arith, v.marked a, contains-finish deps x F a, ==_iff x a);
    visited_marked = λ a m e. ground (arith, v.visited_marked a, ==_iff x a);
    greys = λ a e. ground (arith, v.greys a, ==_iff x a);
    sparse = v.sparse;
    linked = v.linked.1;
    same_path = ap pop v.same_path;
  }

  trues-push_all : (P : List String) (s : Stack) → trues (push_all P s) ≡ trues s
  trues-push_all [] s = refl
  trues-push_all (d ∷ P) s = trues-push_all P s

  Linked-push_all :
      (P : List String) (s : Stack)
      → All (λ d. Child d (trues s)) P
      → Linked s
      → Linked (push_all P s)
  Linked-push_all [] s h l = l
  Linked-push_all (d ∷ P) s h l =
      (subst (Child d) (sym (trues-push_all P s)) h.0, Linked-push_all P s h.1 l)

  Sparse-push_all :
      (P : List String) (s : Stack)
      → All (λ d. contains (trues s) d ≡ false) P
      → Sparse s
      → Sparse (push_all P s)
  Sparse-push_all [] s h l = l
  Sparse-push_all (d ∷ P) s h l = (rw (trues-push_all P s) h.0, Sparse-push_all P s h.1 l)

  is_white_lem : {c : Colour} → is_white c ≡ true → c ≡ white
  is_white_lem e = ground arith

  -- What the scan enters are white dependencies.
  entered-All :
      (P : String → Type 0) (colour : Colours) (acc ds : List String)
      → All P acc
      → All (λ d. colour d ≡ white → P d) ds
      → All P (entered colour acc ds)
  entered-All P colour acc [] h k = h
  entered-All P colour acc (d ∷ ds) h k = elim (Bool-cases (is_white (colour d))) [
    | inl e ↦ rw e (entered-All P colour (d ∷ acc) ds (k.0 (is_white_lem e), h) k.1)
    | inr e ↦ rw e (entered-All P colour acc ds h k.1)
  ]

  module _ (F : List String) (colour : Colours) (path : List String) (x : String) (s : Stack)
      (v : Live F colour path ((x, false) ∷ s)) where
    abbrev found : List String
    found = entered (paint colour x grey) [] (deps x)

    -- A dependency that is still white is not being visited.
    white_unvisited :
        (d : String) → paint colour x grey d ≡ white → contains (x ∷ trues s) d ≡ false
    white_unvisited d e = ground (arith, v.visited_marked d, ==_iff x d)

    found-unvisited : All (λ d. contains (x ∷ trues s) d ≡ false) found
    found-unvisited =
        entered-All (λ d. contains (x ∷ trues s) d ≡ false) (paint colour x grey) [] (deps x) tt
          (All_all white_unvisited (deps x))

    found-children : All (λ d. Mem d (deps x)) found
    found-children =
        entered-All (λ d. Mem d (deps x)) (paint colour x grey) [] (deps x) tt
          (All_intro (λ d. paint colour x grey d ≡ white → Mem d (deps x)) (deps x) (λ d m _. m))

    pub enter-Live :
        {s' : Stack}
        → scan (paint colour x grey) (x ∷ path) (deps x) ((x, true) ∷ s) ≡ pushed s'
        → Live F (paint colour x grey) (x ∷ path) (push_all found ((x, true) ∷ s))
    enter-Live e = record {
      inv = enter-Inv deps F colour (x ∷ path) x s v.inv e;
      done_marked = λ a m c. ground (arith, v.done_marked a, ==_iff x a);
      marked =
          λ a. rw (trues-push_all found ((x, true) ∷ s)) (ground (arith, v.marked a, ==_iff x a));
      visited_marked = λ a m c.
          let m' = rw (trues-push_all found ((x, true) ∷ s)) at m in
          ground (arith, v.visited_marked a, ==_iff x a, m');
      greys =
          λ a c. rw (trues-push_all found ((x, true) ∷ s)) (ground (arith, v.greys a, ==_iff x a));
      sparse = Sparse-push_all found ((x, true) ∷ s) found-unvisited v.sparse.1;
      linked = Linked-push_all found ((x, true) ∷ s) found-children v.linked;
      same_path = ap (λ l. x ∷ l) v.same_path ∙ sym (trues-push_all found ((x, true) ∷ s));
    }
