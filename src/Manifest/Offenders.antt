-- ===== src/Manifest/Offenders.antt =====
-- contracts/app-manifest/v1alpha1/rules.py: which actions the violations of a manifest name.
use barista_apps.Prelude.{
  String, Bool, true, false, List, [], ◌∷◌, ◌≡◌, ◌≢◌, refl, ◌↔◌, ◌⊎◌, inl, inr, is_empty, Mem,
  text_equality, if◌then◌else◌,
}
use barista_apps.Manifest.Grants.{Grant, sorted_set}
use barista_apps.Manifest.Authority.{
  Names, Allows, AllowsDownward, Names-append, Names-report, Names-unless_allowed, Mem-excess,
  Mem-downward, Mem-not_held_downward, Mem-creates,
}
use barista_apps.Manifest.{
  Manifest, Rule, excess, downward, not_held_downward, creates, report, unless_allowed, relate,
  check_no_duplicate_scope, app_grants, child_grants, allow_descendants, check_manifest,
  duplicate_action_scope, child_actions_exceed_app, child_created_scope_without_descendants,
  child_created_scope_exceeds_app_scope, child_create_without_descendants,
}

-- What the four rules on the authority of a child report.
abbrev Reported : Rule → String → List Grant → List Grant → Bool → Type 0
Reported rule a app child allowed =
    ((child_actions_exceed_app ≡ rule) × Mem a (excess app child))
    ⊎ ((allowed ≡ false)
        × (child_created_scope_without_descendants ≡ rule)
        × Mem a (downward child))
    ⊎ ((child_created_scope_exceeds_app_scope ≡ rule) × Mem a (not_held_downward app child))
    ⊎ ((allowed ≡ false) × (child_create_without_descendants ≡ rule) × Mem a (creates child))

Names-relate :
    (rule : Rule) (a : String) (app child : List Grant) (allowed : Bool)
    → Names rule a (relate app child allowed) ↔ Reported rule a app child allowed
unfolding relate
Names-relate rule a app child allowed = (
  λ n. elim ((Names-append rule a _ _).0 n) [
    | inl h ↦ inl ((Names-report _ rule a _).0 h)
    | inr h ↦ elim ((Names-append rule a _ _).0 h) [
      | inl k ↦ inr (inl ((Names-unless_allowed allowed _ rule a _).0 k))
      | inr k ↦ elim ((Names-append rule a _ _).0 k) [
        | inl l ↦ inr (inr (inl ((Names-report _ rule a _).0 l)))
        | inr l ↦ inr (inr (inr ((Names-unless_allowed allowed _ rule a _).0 l)))
      ]
    ]
  ],
  λ r. (Names-append rule a _ _).1 (elim r [
    | inl h ↦ inl ((Names-report _ rule a _).1 h)
    | inr h ↦ inr (
        (Names-append rule a _ _).1 (elim h [
          | inl k ↦ inl ((Names-unless_allowed allowed _ rule a _).1 k)
          | inr k ↦ inr (
              (Names-append rule a _ _).1 (elim k [
                | inl l ↦ inl ((Names-report _ rule a _).1 l)
                | inr l ↦ inr ((Names-unless_allowed allowed _ rule a _).1 l)
              ]))
        ]))
  ]),
)

relate-nil : (app : List Grant) (allowed : Bool) → relate app [] allowed ≡ []
unfolding relate excess downward not_held_downward creates report unless_allowed sorted_set
relate-nil app true = refl
relate-nil app false = refl

guarded-Names :
    (rule : Rule) (a : String) (app child : List Grant) (allowed : Bool)
    → Names rule a (if is_empty child then [] else relate app child allowed)
      ↔ Names rule a (relate app child allowed)
guarded-Names rule a app [] allowed = rw (relate-nil app allowed) (λ n. n, λ n. n)
guarded-Names rule a app (g ∷ child) allowed = (λ n. n, λ n. n)

-- The check of duplicates reports under no other rule.
Names-duplicate :
    (rule : Rule) (a : String) (grants : List Grant)
    → duplicate_action_scope ≢ rule
    → Names rule a (check_no_duplicate_scope grants)
    → ⊥
unfolding check_no_duplicate_scope
Names-duplicate rule a grants n h = n ((Names-report duplicate_action_scope rule a _).0 h).0

Names-check :
    (rule : Rule) (a : String) (m : Manifest)
    → duplicate_action_scope ≢ rule
    → Names rule a (check_manifest m)
      ↔ Reported rule a (app_grants m) (child_grants m) (allow_descendants m)
unfolding check_manifest
Names-check rule a m d =
    let app = app_grants m in
    let child = child_grants m in
    let allowed = allow_descendants m in
    (
      λ n. elim ((Names-append rule a (check_no_duplicate_scope app) _).0 n) [
        | inl h ↦ absurd (Names-duplicate rule a app d h)
        | inr h ↦ elim ((Names-append rule a (check_no_duplicate_scope child) _).0 h) [
          | inl k ↦ absurd (Names-duplicate rule a child d k)
          | inr k ↦
              (Names-relate rule a app child allowed).0
                ((guarded-Names rule a app child allowed).0 k)
        ]
      ],
      λ r. (Names-append rule a (check_no_duplicate_scope app) _).1 (
          inr (
            (Names-append rule a (check_no_duplicate_scope child) _).1 (
              inr (
                (guarded-Names rule a app child allowed).1
                  ((Names-relate rule a app child allowed).1 r))))),
    )

-- Which actions the violations of a manifest name: under the first rule those of a child that the
-- app has over no scope; under the second, unless descendants are allowed, those that a child has
-- over created sessions; under the third the ones of these that the app does not have over created
-- sessions; and under the fourth, unless descendants are allowed, the creation of sessions, where a
-- child has it.
pub offenders_exact :
    (m : Manifest) (a : String)
    → (Names child_actions_exceed_app a (check_manifest m)
        ↔ Allows a (child_grants m) × (Allows a (app_grants m) → ⊥))
      × (Names child_created_scope_without_descendants a (check_manifest m)
          ↔ (allow_descendants m ≡ false) × AllowsDownward a (child_grants m))
      × (Names child_created_scope_exceeds_app_scope a (check_manifest m)
          ↔ AllowsDownward a (child_grants m) × (AllowsDownward a (app_grants m) → ⊥))
      × (Names child_create_without_descendants a (check_manifest m)
          ↔ (allow_descendants m ≡ false) × (a ≡ "session.create") × Allows a (child_grants m))
offenders_exact m a =
    let app = app_grants m in
    let child = child_grants m in
    (
      (
        λ n. elim ((Names-check child_actions_exceed_app a m (λ e. cc)).0 n) [
          | inl (_, h) ↦ (Mem-excess a app child).0 h
          | inr (inl (_, e, _)) ↦ cc
          | inr (inr (inl (e, _))) ↦ cc
          | inr (inr (inr (_, e, _))) ↦ cc
        ],
        λ h.
            (Names-check child_actions_exceed_app a m (λ e. cc)).1
              (inl (refl, (Mem-excess a app child).1 h)),
      ),
      (
        λ n. elim ((Names-check child_created_scope_without_descendants a m (λ e. cc)).0 n) [
          | inl (e, _) ↦ cc
          | inr (inl (d, _, h)) ↦ (d, (Mem-downward a child).0 h)
          | inr (inr (inl (e, _))) ↦ cc
          | inr (inr (inr (_, e, _))) ↦ cc
        ],
        λ (d, h).
            (Names-check child_created_scope_without_descendants a m (λ e. cc)).1
              (inr (inl (d, refl, (Mem-downward a child).1 h))),
      ),
      (
        λ n. elim ((Names-check child_created_scope_exceeds_app_scope a m (λ e. cc)).0 n) [
          | inl (e, _) ↦ cc
          | inr (inl (_, e, _)) ↦ cc
          | inr (inr (inl (_, h))) ↦ (Mem-not_held_downward a app child).0 h
          | inr (inr (inr (_, e, _))) ↦ cc
        ],
        λ h.
            (Names-check child_created_scope_exceeds_app_scope a m (λ e. cc)).1
              (inr (inr (inl (refl, (Mem-not_held_downward a app child).1 h)))),
      ),
      (
        λ n. elim ((Names-check child_create_without_descendants a m (λ e. cc)).0 n) [
          | inl (e, _) ↦ cc
          | inr (inl (_, e, _)) ↦ cc
          | inr (inr (inl (e, _))) ↦ cc
          | inr (inr (inr (d, _, h))) ↦ let (e, g) = (Mem-creates a child).0 h in (d, e, g)
        ],
        λ (d, e, g).
            (Names-check child_create_without_descendants a m (λ e. cc)).1
              (inr (inr (inr (d, refl, (Mem-creates a child).1 (e, g))))),
      ),
    )
