-- ===== src/Mission/Trace.antt =====
-- What the search leaves behind: the nodes that it has finished, newest first, and what its stack
-- still has to finish.
use barista_apps.Prelude.{
  String, Bool, true, false, ◌||◌, List, [], ◌∷◌, ◌++◌, ◌≡◌, refl, ◌∙◌, ◌⊎◌, inl, inr, ◌==◌,
  text_equality, if◌then◌else◌, contains, All, All_map, All_intro, Bool-cases, Mem, Subset,
  contains-append, arith, ==_iff,
}
use barista_apps.Mission.Graph.{Colour, white, grey, black, Colours, paint, Stack, scan, pushed}

pub Colour-cases : (c : Colour) → (c ≡ white) ⊎ ((c ≡ grey) ⊎ (c ≡ black))
Colour-cases white = inl refl
Colour-cases grey = inr (inl refl)
Colour-cases black = inr (inr refl)

abbrev pub names : Stack → List String
names [] = []
names ((x, b) ∷ s) = x ∷ names s

-- The nodes `P` entered on the stack, to be visited.
abbrev pub push_all : List String → Stack → Stack
push_all [] s = s
push_all (d ∷ P) s = (d, false) ∷ push_all P s

pub names-push_all : (P : List String) (s : Stack) → names (push_all P s) ≡ P ++ names s
names-push_all [] s = refl
names-push_all (d ∷ P) s = cc (names-push_all P s)

-- The dependencies that the scan enters.
abbrev pub is_white : Colour → Bool
is_white white = true
is_white _ = false

abbrev pub entered : Colours → List String → List String → List String
entered colour acc [] = acc
entered colour acc (d ∷ ds) =
    let more = entered colour (d ∷ acc) ds in
    let same = entered colour acc ds in if is_white (colour d) then more else same

pub entered_keeps :
    (colour : Colours) (acc ds : List String) (x : String)
    → Mem x acc
    → Mem x (entered colour acc ds)
entered_keeps colour acc [] x m = m
entered_keeps colour acc (d ∷ ds) x m =
    ground (arith, entered_keeps colour (d ∷ acc) ds x, entered_keeps colour acc ds x)

module _ (colour : Colours) (path : List String) (s : Stack) where
  -- A scan that returns has pushed the dependencies that it entered.
  pub scan-pushed :
      (ds acc : List String) {s' : Stack}
      → scan colour path ds (push_all acc s) ≡ pushed s'
      → s' ≡ push_all (entered colour acc ds) s
  unfolding scan
  scan-pushed [] acc h = cc
  scan-pushed (d ∷ ds) acc {s' = t} h =
      ground (arith, scan-pushed ds (d ∷ acc) {s' = t}, scan-pushed ds acc {s' = t})

  -- Every dependency that it met was entered or is finished.
  pub scan-reaches :
      (ds acc : List String) (x : String) {s' : Stack}
      → scan colour path ds (push_all acc s) ≡ pushed s'
      → Mem x ds
      → (Mem x (entered colour acc ds)) ⊎ (colour x ≡ black)
  unfolding scan
  scan-reaches [] acc x h m = cc
  scan-reaches (d ∷ ds) acc x {s' = t} h m = ground (
    arith,
    scan-reaches ds (d ∷ acc) x {s' = t},
    scan-reaches ds acc x {s' = t},
    entered_keeps colour (d ∷ acc) ds x,
    ==_iff d x,
  )

module _ (deps : String → List String) where
  -- The dependencies of each node that is being left are in `S`, or stand above it.
  abbrev pub Covers : List String → Stack → Type 0
  Covers S [] = Unit
  Covers S ((x, true) ∷ s) = All (λ d. Mem d S) (deps x) × Covers (x ∷ S) s
  Covers S ((x, false) ∷ s) = Covers (x ∷ S) s

  -- Each finished node has only dependencies that were finished before it.
  abbrev pub IsOrdered : List String → Type 0
  IsOrdered [] = Unit
  IsOrdered (x ∷ F) = (contains F x ≡ false) × All (λ d. Mem d F) (deps x) × IsOrdered F

  Subset-cons : (x : String) (S T : List String) → Subset S T → Subset (x ∷ S) (x ∷ T)
  Subset-cons x S T h a m = ground (arith, h a)

  pub Covers-mono : (S T : List String) (s : Stack) → Subset S T → Covers S s → Covers T s
  Covers-mono S T [] h c = tt
  Covers-mono S T ((x, true) ∷ s) h c =
      (All_map h (deps x) c.0, Covers-mono (x ∷ S) (x ∷ T) s (Subset-cons x S T h) c.1)
  Covers-mono S T ((x, false) ∷ s) h c = Covers-mono (x ∷ S) (x ∷ T) s (Subset-cons x S T h) c

  pub Covers-push_all :
      (P S : List String) (s : Stack) → Covers (P ++ S) s → Covers S (push_all P s)
  Covers-push_all [] S s c = c
  Covers-push_all (d ∷ P) S s c =
      Covers-push_all P (d ∷ S) s (Covers-mono (d ∷ (P ++ S)) (P ++ d ∷ S) s moved c)
    where
      moved : Subset (d ∷ (P ++ S)) (P ++ d ∷ S)
      moved a m = ground (arith, contains-append P S a, contains-append P (d ∷ S) a)

  -- The state of the search, beside the list `F` of what is finished.
  pub record Inv (F : List String) (colour : Colours) (stack : Stack) : Type 0 where
    pub ordered : IsOrdered F
    pub blacks : (x : String) → colour x ≡ black → Mem x F
    pub seen : (x : String) → (colour x ≡ white) ⊎ Mem x (names stack ++ F)
    pub covers : Covers F stack

  -- The list of what is finished, after its newest node.
  abbrev pub finish : String → List String → List String
  finish x F = if contains F x then F else x ∷ F

  pub contains-finish :
      (x : String) (F : List String) (a : String)
      → contains (finish x F) a ≡ (x == a || contains F a)
  contains-finish x F a = ground (arith, ==_iff x a)

  IsOrdered-finish :
      (x : String) (F : List String)
      → All (λ d. Mem d F) (deps x)
      → IsOrdered F
      → IsOrdered (finish x F)
  IsOrdered-finish x F below h = elim (Bool-cases (contains F x)) [
    | inl e ↦ rw e h
    | inr e ↦ rw e (e, below, h)
  ]

  -- What is on the stack or finished.
  abbrev pub held : Stack → List String → List String
  held s F = names s ++ F

  contains-held_leave :
      (x : String) (s : Stack) (F : List String) (a : String)
      → contains (held s (finish x F)) a ≡ contains (held ((x, true) ∷ s) F) a
  contains-held_leave x s F a = ground (
    arith,
    contains-append (names s) (finish x F) a,
    contains-append (names s) F a,
    contains-finish x F a,
  )

  pub leave-Inv :
      (F : List String) (colour : Colours) (x : String) (s : Stack)
      → Inv F colour ((x, true) ∷ s)
      → Inv (finish x F) (paint colour x black) s
  leave-Inv F colour x s v = record {
    ordered = IsOrdered-finish x F v.covers.0 v.ordered;
    blacks = λ a e. ground (arith, contains-finish x F a, v.blacks a, ==_iff x a);
    seen = λ a. ground (arith, contains-held_leave x s F a, v.seen a, ==_iff x a);
    covers = Covers-mono (x ∷ F) (finish x F) s (λ a m. contains-finish x F a ∙ m) v.covers.1;
  }

  pub held_leave :
      (x : String) (s : Stack) (F : List String)
      → Subset (held ((x, true) ∷ s) F) (held s (finish x F))
  held_leave x s F a m = contains-held_leave x s F a ∙ m

  module _ (F : List String) (colour : Colours) (path : List String) (x : String) (s : Stack) where
    abbrev found : List String
    found = entered (paint colour x grey) [] (deps x)

    contains-held_enter :
        (a : String)
        → contains (held (push_all found ((x, true) ∷ s)) F) a
          ≡ (contains found a || contains (held ((x, false) ∷ s) F) a)
    contains-held_enter a = rw (names-push_all found ((x, true) ∷ s)) (
        ground (
          arith,
          contains-append (found ++ x ∷ names s) F a,
          contains-append found (x ∷ names s) a,
          contains-append (names s) F a,
        ))

    pub held_enter : Subset (held ((x, false) ∷ s) F) (held (push_all found ((x, true) ∷ s)) F)
    held_enter a m = ground (arith, contains-held_enter a)

    pub enter-Inv :
        {s' : Stack}
        → Inv F colour ((x, false) ∷ s)
        → scan (paint colour x grey) path (deps x) ((x, true) ∷ s) ≡ pushed s'
        → Inv F (paint colour x grey) (push_all found ((x, true) ∷ s))
    enter-Inv {s' = s'} v e = record {
      ordered = v.ordered;
      blacks = blacks';
      seen = λ a. ground (arith, contains-held_enter a, v.seen a, ==_iff x a);
      covers = Covers-push_all found F ((x, true) ∷ s) (
        All_intro (λ d. Mem d (found ++ F)) (deps x) reached,
        Covers-mono (x ∷ F) (x ∷ (found ++ F)) s (λ a m. ground (arith, contains-append found F a))
            v.covers,
      );
    }
      where
        blacks' : (a : String) → paint colour x grey a ≡ black → Mem a F
        blacks' a c = ground (arith, v.blacks a)

        reached : (d : String) → Mem d (deps x) → Mem d (found ++ F)
        reached d m = ground (
          arith,
          scan-reaches (paint colour x grey) path ((x, true) ∷ s) (deps x) [] d {s' = s'} e m,
          blacks' d,
          contains-append found F d,
        )
