-- ===== src/Manifest/Authority.antt =====
-- contracts/app-manifest/v1alpha1/rules.py: what the lists hold that the rules report.
use barista_apps.Prelude.{
  String, Bool, true, false, not, List, [], ◌∷◌, ◌++◌, map, ◌≡◌, refl, ◌↔◌, ◌⊎◌, inl, inr, contains,
  contains-keep, keep, Mem, arith, text_equality, ◌==◌, ==_iff, sym, ◌∙◌, Bool-cases,
}
use barista_apps.Manifest.Grants.{Grant, is_collection, contains-sorted_set}
use barista_apps.Manifest.{
  Rule, Violation, action_of, is_created, is_creation, excess, downward, not_held_downward, creates,
  report, unless_allowed,
}

-- A violation of the rule names the action.
abbrev pub Names : Rule → String → List Violation → Type 0
Names rule a [] = ⊥
Names rule a (v ∷ vs) = ((v.rule ≡ rule) × Mem a v.actions) ⊎ Names rule a vs

-- One of the grants is for the action.
abbrev pub Allows : String → List Grant → Type 0
Allows a [] = ⊥
Allows a (g ∷ gs) = (g.action ≡ a) ⊎ Allows a gs

-- One of the grants is for the action, over the sessions that are created.
abbrev pub AllowsDownward : String → List Grant → Type 0
AllowsDownward a [] = ⊥
AllowsDownward a (g ∷ gs) = ((g.action ≡ a) × (g.scope ≡ "created_sessions")) ⊎ AllowsDownward a gs

pub Names-append :
    (rule : Rule) (a : String) (vs ws : List Violation)
    → Names rule a (vs ++ ws) ↔ Names rule a vs ⊎ Names rule a ws
Names-append rule a [] ws = (λ n. inr n, λ n. elim n [ inl e ↦ absurd e | inr n ↦ n ])
Names-append rule a (v ∷ vs) ws = (
  λ n. elim n [
    | inl h ↦ inl (inl h)
    | inr k ↦ elim ((Names-append rule a vs ws).0 k) [ inl h ↦ inl (inr h) | inr h ↦ inr h ]
  ],
  λ n. elim n [
    | inl (inl h) ↦ inl h
    | inl (inr h) ↦ inr ((Names-append rule a vs ws).1 (inl h))
    | inr h ↦ inr ((Names-append rule a vs ws).1 (inr h))
  ],
)

pub Names-report :
    (q rule : Rule) (a : String) (names : List String)
    → Names rule a (report q names) ↔ (q ≡ rule) × Mem a names
unfolding report
Names-report q rule a [] = (λ n. absurd n, λ (e, m). ground arith)
Names-report q rule a (b ∷ names) = (λ n. elim n [ inl h ↦ h | inr e ↦ absurd e ], λ h. inl h)

pub Names-unless_allowed :
    (allowed : Bool) (q rule : Rule) (a : String) (names : List String)
    → Names rule a (unless_allowed allowed q names) ↔ (allowed ≡ false) × (q ≡ rule) × Mem a names
unfolding unless_allowed
Names-unless_allowed true q rule a names = (λ n. absurd n, λ (e, _, _). ground arith)
Names-unless_allowed false q rule a names = (
  λ n. let (e, m) = (Names-report q rule a names).0 n in (refl, e, m),
  λ (_, e, m). (Names-report q rule a names).1 (e, m),
)

Mem-Allows : (a : String) (gs : List Grant) → Mem a (map action_of gs) ↔ Allows a gs
Mem-Allows a [] = (λ m. ground arith, λ g. absurd g)
Mem-Allows a (g ∷ gs) = (
  λ m. elim (Bool-cases (g.action == a)) [
    | inl e ↦ inl ((==_iff g.action a).0 e)
    | inr e ↦ inr ((Mem-Allows a gs).0 (ground arith))
  ],
  λ k. elim k [
    | inl e ↦ ground (arith, ==_iff g.action a)
    | inr h ↦ ground (arith, (Mem-Allows a gs).1 h)
  ],
)

Mem-AllowsDownward :
    (a : String) (gs : List Grant)
    → Mem a (map action_of (keep is_created gs)) ↔ AllowsDownward a gs
Mem-AllowsDownward a [] = (λ m. ground arith, λ g. absurd g)
Mem-AllowsDownward a (g ∷ gs) = elim (Bool-cases (is_created g)) [
  | inr n ↦ rw n (
    λ m. inr ((Mem-AllowsDownward a gs).0 m),
    λ k. elim k [
      | inl (_, s) ↦ ground (arith, n, (==_iff g.scope "created_sessions").1 s)
      | inr h ↦ (Mem-AllowsDownward a gs).1 h
    ],
  )
  | inl n ↦ rw n (
    λ m. elim (Bool-cases (g.action == a)) [
      | inl e ↦ inl ((==_iff g.action a).0 e, (==_iff g.scope "created_sessions").0 n)
      | inr e ↦ inr ((Mem-AllowsDownward a gs).0 (ground arith))
    ],
    λ k. elim k [
      | inl (e, _) ↦ ground (arith, ==_iff g.action a)
      | inr h ↦ ground (arith, (Mem-AllowsDownward a gs).1 h)
    ],
  )
]

Mem-creation :
    (a : String) (gs : List Grant)
    → Mem a (map action_of (keep is_creation gs)) ↔ (a ≡ "session.create") × Allows a gs
unfolding is_collection
Mem-creation a [] = (λ m. ground arith, λ (_, g). absurd g)
Mem-creation a (g ∷ gs) = elim (Bool-cases ("session.create" == g.action)) [
  | inr n ↦ rw n (
    λ m. let (e, k) = (Mem-creation a gs).0 m in (e, inr k),
    λ (e, k). elim k [
      | inl i ↦ ground (arith, n, ==_iff "session.create" g.action)
      | inr h ↦ (Mem-creation a gs).1 (e, h)
    ],
  )
  | inl n ↦ rw n (
    λ m. elim (Bool-cases (g.action == a)) [
      | inl e ↦
          let i = (==_iff g.action a).0 e in
          (sym i ∙ sym ((==_iff "session.create" g.action).0 n), inl i)
      | inr e ↦ let (i, k) = (Mem-creation a gs).0 (ground arith) in (i, inr k)
    ],
    λ (e, k). ground (arith, ==_iff "session.create" g.action, ==_iff g.action a),
  )
]

pub Mem-excess :
    (a : String) (app child : List Grant)
    → Mem a (excess app child) ↔ Allows a child × (Allows a app → ⊥)
unfolding excess
Mem-excess a app child =
    let e =
      contains-sorted_set (keep (λ b. not (contains (map action_of app) b)) (map action_of child)) a
      ∙ contains-keep (λ b. not (contains (map action_of app) b)) (map action_of child) a in
    (
      λ m. (
        (Mem-Allows a child).0 (ground (arith, e)),
        λ g. ground (arith, e, (Mem-Allows a app).1 g),
      ),
      λ (g, n). elim (Bool-cases (contains (map action_of app) a)) [
        | inl h ↦ absurd (n ((Mem-Allows a app).0 h))
        | inr h ↦ ground (arith, e, h, (Mem-Allows a child).1 g)
      ],
    )

pub Mem-downward :
    (a : String) (child : List Grant) → Mem a (downward child) ↔ AllowsDownward a child
unfolding downward
Mem-downward a child =
    let e = contains-sorted_set (map action_of (keep is_created child)) a in
    (λ m. (Mem-AllowsDownward a child).0 (sym e ∙ m), λ g. e ∙ (Mem-AllowsDownward a child).1 g)

pub Mem-not_held_downward :
    (a : String) (app child : List Grant)
    → Mem a (not_held_downward app child) ↔ AllowsDownward a child × (AllowsDownward a app → ⊥)
unfolding not_held_downward
Mem-not_held_downward a app child =
    let e =
      contains-keep (λ b. not (contains (map action_of (keep is_created app)) b)) (downward child)
        a in
    (
      λ m. (
        (Mem-downward a child).0 (ground (arith, e)),
        λ g. ground (arith, e, (Mem-AllowsDownward a app).1 g),
      ),
      λ (g, n). elim (Bool-cases (contains (map action_of (keep is_created app)) a)) [
        | inl h ↦ absurd (n ((Mem-AllowsDownward a app).0 h))
        | inr h ↦ ground (arith, e, h, (Mem-downward a child).1 g)
      ],
    )

pub Mem-creates :
    (a : String) (child : List Grant)
    → Mem a (creates child) ↔ (a ≡ "session.create") × Allows a child
unfolding creates
Mem-creates a child =
    let e = contains-sorted_set (map action_of (keep is_creation child)) a in
    (λ m. (Mem-creation a child).0 (sym e ∙ m), λ g. e ∙ (Mem-creation a child).1 g)
