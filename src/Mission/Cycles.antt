-- ===== src/Mission/Cycles.antt =====
-- The cycle that the search reports is one: each task on it depends on the next, and the first
-- task is the last.
use mathlib.Core.List.{reverse, reverse_aux, reverse-append, reverse-cons}
use barista_apps.Prelude.{
  String, true, false, List, [], ◌∷◌, ◌++◌, ◌≡◌, ◌∙◌, ap, subst, ◌==◌, text_equality, All, Mem,
  arith, ==_iff, Bool-cases, inl, inr,
}
use barista_apps.Mission.Graph.{grey, Colours, Stack, scan, closed, up_to}
use barista_apps.Mission.Acyclic.{Depends, direct, through}
use barista_apps.Mission.Trace.{Colour-cases}
use barista_apps.Mission.Live.{trues, Linked, Child}

module _ (deps : String → List String) where
  abbrev pub Chain : List String → Type 0
  Chain [] = Unit
  Chain (x ∷ []) = Unit
  Chain (x ∷ y ∷ ys) = Mem y (deps x) × Chain (y ∷ ys)

  pub record IsCycle (cycle : List String) : Type 0 where
    pub task : String
    pub middle : List String
    pub closes : cycle ≡ task ∷ (middle ++ task ∷ [])
    pub chain : Chain cycle

  Chain-Depends :
      (x : String) (middle : List String) (y : String)
      → Chain (x ∷ (middle ++ y ∷ []))
      → Depends deps x y
  Chain-Depends x [] y c = direct c.0
  Chain-Depends x (z ∷ middle) y c = through c.0 (Chain-Depends z middle y c.1)

  -- The task of a cycle depends on itself.
  pub IsCycle-Depends : (cycle : List String) (c : IsCycle cycle) → Depends deps c.task c.task
  IsCycle-Depends cycle c = Chain-Depends c.task c.middle c.task (subst Chain c.closes c.chain)

  -- The path in reverse: each node is a dependency of the one behind it.
  abbrev pub Upward : List String → Type 0
  Upward [] = Unit
  Upward (x ∷ xs) = Child deps x xs × Upward xs

  pub Linked-Upward : (s : Stack) → Linked deps s → Upward (trues s)
  Linked-Upward [] l = tt
  Linked-Upward ((x, true) ∷ s) l = (l.0, Linked-Upward s l.1)
  Linked-Upward ((x, false) ∷ s) l = Linked-Upward s l.1

  abbrev Joins : List String → List String → Type 0
  Joins xs [] = Unit
  Joins xs (a ∷ acc) = Child deps a xs

  Chain-reverse_aux :
      (xs acc : List String) → Upward xs → Joins xs acc → Chain acc → Chain (reverse_aux xs acc)
  Chain-reverse_aux [] acc u j c = c
  Chain-reverse_aux (x ∷ xs) [] u j c = Chain-reverse_aux xs (x ∷ []) u.1 u.0 tt
  Chain-reverse_aux (x ∷ xs) (a ∷ acc) u j c = Chain-reverse_aux xs (x ∷ a ∷ acc) u.1 u.0 (j, c)

  Child-up_to : (k x : String) (xs : List String) → Child deps x xs → Child deps x (up_to k xs)
  Child-up_to k x [] c = tt
  Child-up_to k x (y ∷ ys) c = elim (Bool-cases (y == k)) [ inl e ↦ rw e c | inr e ↦ rw e c ]

  Upward-up_to : (k : String) (xs : List String) → Upward xs → Upward (up_to k xs)
  Upward-up_to k [] u = tt
  Upward-up_to k (x ∷ xs) u = elim (Bool-cases (x == k)) [
    | inl e ↦ rw e (tt, tt)
    | inr e ↦ rw e (Child-up_to k x xs u.0, Upward-up_to k xs u.1)
  ]

  up_to-ends :
      (k : String) (xs : List String)
      → Mem k xs
      → (before : List String) × (up_to k xs ≡ before ++ k ∷ [])
  up_to-ends k [] m = cc
  up_to-ends k (x ∷ xs) m = elim (Bool-cases (x == k)) [
    | inl e ↦ ([], rw e (ap (λ z. z ∷ []) ((==_iff x k).0 e)))
    | inr e ↦
        let (before, p) = up_to-ends k xs (ground arith) in (x ∷ before, rw e (ap (λ l. x ∷ l) p))
  ]

  reversed :
      (k : String) (before l : List String)
      → l ≡ before ++ k ∷ []
      → reverse (k ∷ l) ≡ k ∷ (reverse before ++ k ∷ [])
  reversed k before l p =
      reverse-cons k l ∙ ap (λ r. r ++ k ∷ []) (ap reverse p ∙ reverse-append before (k ∷ []))

  -- The list that is reported for a dependency `k` of the innermost node that lies on the path.
  pub closing-IsCycle :
      (k x : String) (path : List String)
      → Upward (x ∷ path)
      → Mem k (deps x)
      → Mem k (x ∷ path)
      → IsCycle (reverse (k ∷ up_to k (x ∷ path)))
  closing-IsCycle k x path u d m =
      let (before, p) = up_to-ends k (x ∷ path) m in
      record {
        task = k;
        middle = reverse before;
        closes = reversed k before (up_to k (x ∷ path)) p;
        chain =
            Chain-reverse_aux (up_to k (x ∷ path)) (k ∷ []) (Upward-up_to k (x ∷ path) u)
              (Child-up_to k k (x ∷ path) d) tt;
      }

  pub scan-closed :
      (colour : Colours) (x : String) (path ds : List String) (s : Stack) {cycle : List String}
      → Upward (x ∷ path)
      → ((k : String) → colour k ≡ grey → Mem k (x ∷ path))
      → All (λ d. Mem d (deps x)) ds
      → scan colour (x ∷ path) ds s ≡ closed cycle
      → IsCycle cycle
  unfolding scan
  scan-closed colour x path [] s u g h e = cc
  scan-closed colour x path (d ∷ ds) s u g h e = elim (Colour-cases (colour d)) [
    | inl p ↦ scan-closed colour x path ds ((d, false) ∷ s) u g h.1 (rw (p, scan) at e)
    | inr (inl p) ↦ subst IsCycle (cc (rw (p, scan) at e)) (closing-IsCycle d x path u h.0 (g d p))
    | inr (inr p) ↦ scan-closed colour x path ds s u g h.1 (rw (p, scan) at e)
  ]
