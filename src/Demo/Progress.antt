-- ===== src/Demo/Progress.antt =====
-- integrations/github-factory-demo/barista_github_factory_demo/store.py: the features of a program
-- whose plan has an order do not wait for each other.
use barista_apps.Prelude.{
  String, Bool, true, false, some, List, [], ◌∷◌, ◌==◌, text_equality, ==_iff, ==_refl, contains,
  any, all_iff, keep, map, All, All_map, All-Mem, Mem, Mem-head, Mem-tail, Nodup, Subset, ◌≡◌, refl,
  sym, ap, subst, ◌∙◌, ◌⊎◌, inl, inr, arith, Bool-cases,
}
use barista_apps.Prelude.Dict.{find}
use barista_apps.Factory.Plan.{Graph, nodes}
use barista_apps.Factory.Plan.Reachable.{Ordered, IsOrder}
use barista_apps.Demo.Rows.{Feature}
use barista_apps.Demo.Store.{Store}
use barista_apps.Demo.Features.{features_of, is_none, is_merged, ready_features}
use barista_apps.Demo.Ready.{Within}

-- What the rows of a program depend on.
abbrev pub needs_of : List Feature → Graph
needs_of = map (λ f. (f.feature_id, f.dependencies))

Within-keep_intro :
    (p : Feature → Bool) (f : Feature) (fs : List Feature)
    → Within f fs
    → p f ≡ true
    → Within f (keep p fs)
Within-keep_intro p f [] w h = w
Within-keep_intro p f (x ∷ fs) (inl e) h = rw (subst (λ x. p x ≡ true) (sym e) h) (inl e)
Within-keep_intro p f (x ∷ fs) (inr w) h = elim (Bool-cases (p x)) [
  | inl q ↦ rw q (inr (Within-keep_intro p f fs w h))
  | inr q ↦ rw q (Within-keep_intro p f fs w h)
]

any-nodes :
    (n : String) (fs : List Feature)
    → any (λ (g : Feature). g.feature_id == n) fs ≡ contains (nodes (needs_of fs)) n
any-nodes n [] = refl
any-nodes n (f ∷ fs) = ground (arith, any-nodes n fs)

Within-node :
    (f : Feature) (fs : List Feature) → Within f fs → Mem f.feature_id (nodes (needs_of fs))
Within-node f [] w = absurd w
Within-node f (x ∷ fs) (inl e) =
    subst (λ f. Mem f.feature_id (nodes (needs_of (x ∷ fs)))) e
      (ground (arith, ==_refl x.feature_id))
Within-node f (x ∷ fs) (inr w) = ground (arith, Within-node f fs w)

-- The status of the one row of an identifier.
merged_once :
    (f : Feature) (fs : List Feature)
    → Nodup (nodes (needs_of fs))
    → Within f fs
    → is_merged fs f.feature_id ≡ (f.status == "merged")
unfolding is_merged
merged_once f [] u w = absurd w
merged_once f (x ∷ fs) u (inl e) =
    subst (λ f. is_merged (x ∷ fs) f.feature_id ≡ (f.status == "merged")) e
      (rw (any-nodes x.feature_id fs ∙ u.0, ==_refl x.feature_id) refl)
merged_once f (x ∷ fs) u (inr w) =
    rw (any-nodes f.feature_id fs ∙ Within-node f fs w) (merged_once f fs u.1 w)

row_of :
    (n : String) (fs : List Feature)
    → Mem n (nodes (needs_of fs))
    → (f : Feature) × Within f fs
      × (f.feature_id ≡ n)
      × (find (needs_of fs) n ≡ some f.dependencies)
unfolding find
row_of n [] m = cc
row_of n (x ∷ fs) m = elim (Bool-cases (x.feature_id == n)) [
  | inl e ↦ (
    x,
    inl refl,
    (==_iff x.feature_id n).0 e,
    ground (arith, ==_iff x.feature_id n, ==_iff n x.feature_id),
  )
  | inr e ↦
      let (f, w, i, d) = row_of n fs (ground arith) in
      (f, inr w, i, ground (arith, d, e, ==_iff x.feature_id n, ==_iff n x.feature_id))
]

-- A feature is merged, or published and blocked.
abbrev pub IsOpen : Feature → Type 0
IsOpen f = (f.status ≡ "merged") ⊎ ((f.status ≡ "blocked") × (is_none f.issue_uri ≡ false))

All-Within : (P : Feature → Type 0) (f : Feature) (fs : List Feature) → All P fs → Within f fs → P f
All-Within P f [] a w = absurd w
All-Within P f (x ∷ fs) a (inl e) = subst P e a.0
All-Within P f (x ∷ fs) a (inr w) = All-Within P f fs a.1 w

module _ (pid : String) (s : Store) (once : Nodup (nodes (needs_of (features_of pid s))))
    (open_rows : All IsOpen (features_of pid s)) where
  -- A feature of the program may be claimed.
  abbrev SomeReady : Type 0
  SomeReady = (g : Feature) × Within g (ready_features pid s)

  -- A row that is not merged is ready where all that it depends on is.
  ready_row :
      (f : Feature)
      → Within f (features_of pid s)
      → (f.status == "merged") ≡ false
      → All (λ d. is_merged (features_of pid s) d ≡ true) f.dependencies
      → SomeReady
  unfolding ready_features
  ready_row f w n all_merged = elim (All-Within IsOpen f (features_of pid s) open_rows w) [
    | inl m ↦ absurd (ground (arith, n, (==_iff f.status "merged").1 m))
    | inr (b, i) ↦ (
      f,
      Within-keep_intro _ f (features_of pid s) w (
          ground (
            arith,
            (==_iff f.status "blocked").1 b,
            i,
            (all_iff (is_merged (features_of pid s)) f.dependencies).1 all_merged,
          )),
    )
  ]

  -- Along an order, from its end: the nodes so far are merged, or a feature is ready.
  advance :
      (ns : List String)
      → Ordered (needs_of (features_of pid s)) ns
      → Subset ns (nodes (needs_of (features_of pid s)))
      → All (λ n. is_merged (features_of pid s) n ≡ true) ns ⊎ SomeReady
  advance [] o i = inl tt
  advance (n ∷ ns) o i = elim (advance ns o.1 (λ a m. i a (Mem-tail n a ns m))) [
    | inr r ↦ inr r
    | inl done ↦ elim (Bool-cases (is_merged (features_of pid s) n)) [
      | inl m ↦ inl (m, done)
      | inr m ↦
          let (f, w, e, d) = row_of n (features_of pid s) (i n (Mem-head n ns)) in
          inr (
            ready_row f w
              (sym (merged_once f (features_of pid s) once w)
                ∙ ap (is_merged (features_of pid s)) e
                ∙ m)
              (All_map (λ d k. All-Mem (λ n. is_merged (features_of pid s) n ≡ true) ns d done k)
                f.dependencies (o.0 f.dependencies d)))
    ]
  ]

  -- Where the rows of a program have distinct identifiers, each is merged or is blocked with an
  -- issue, and an order has each before those that it depends on, then a feature is ready as long as
  -- one is not merged: the features never wait for each other.
  pub ready_features-ne-nil :
      (order : List String) (f : Feature)
      → IsOrder (needs_of (features_of pid s)) order
      → Subset (nodes (needs_of (features_of pid s))) order
      → Within f (features_of pid s)
      → (f.status == "merged") ≡ false
      → (g : Feature) × Within g (ready_features pid s)
  ready_features-ne-nil order f o covers w n = elim (advance order o.ordered o.inside) [
    | inr r ↦ r
    | inl done ↦ absurd (
        ground (
          arith,
          n,
          merged_once f (features_of pid s) once w,
          All-Mem (λ n. is_merged (features_of pid s) n ≡ true) order f.feature_id done
              (covers f.feature_id (Within-node f (features_of pid s) w)),
        ))
  ]
