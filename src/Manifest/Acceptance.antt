-- ===== src/Manifest/Acceptance.antt =====
-- A manifest has no violation exactly when it meets five conditions, which are stated without
-- the lists that the rules compute.
use barista_apps.Prelude.{
  String, Bool, true, false, not, List, [], ◌∷◌, ◌++◌, map, ◌≡◌, refl, ◌↔◌, sym, ◌∙◌, contains,
  keep, is_empty, All, All_map, All_all, All_intro, All-Mem, All-map, All-map-keep, map-keep-eq-nil,
  ap, Mem, Nodup, arith, ==_iff, text_equality, keep-eq-nil, if◌then◌else◌,
}
use barista_apps.Manifest.Grants.{
  Grant, grant_equality, grant_beq, created_sessions, is_collection, sorted_set,
  contains-sorted_set, sorted_set-eq-nil,
}
use barista_apps.Manifest.Duplicates.{report-eq-nil, check_no_duplicate_scope-eq-nil}
use barista_apps.Manifest.{
  Manifest, Rule, app_grants, child_grants, allow_descendants, action_of, is_created, is_creation,
  excess, downward, not_held_downward, creates, unless_allowed, relate, check_manifest,
}

append-eq-nil {ℓ} : {A : Type ℓ} (xs ys : List A) → (xs ++ ys ≡ []) ↔ (xs ≡ []) × (ys ≡ [])
append-eq-nil [] ys = (λ h. (refl, h), λ h. h.1)
append-eq-nil (x ∷ xs) ys = (λ h. cc, λ h. cc)

-- The app itself declares the action.
abbrev pub IsHeld : List Grant → Grant → Type 0
IsHeld app g = Mem g.action (map action_of app)

-- The app declares the action over the sessions that it creates.
abbrev pub IsHeldDownward : List Grant → Grant → Type 0
IsHeldDownward app g =
    Mem (let c : Grant = record { action = g.action; scope = created_sessions } in c) app

contains-created :
    (app : List Grant) (g : Grant)
    → contains (map action_of (keep is_created app)) g.action
      ≡ contains app (record { action = g.action; scope = created_sessions })
unfolding grant_beq
contains-created [] g = refl
contains-created (h ∷ app) g = ground (arith, contains-created app g)

-- A test is passed by no element of a sorted set, exactly when by none of its source.
keep-sorted_set-eq-nil :
    (p : String → Bool) (xs : List String)
    → (keep p (sorted_set xs) ≡ []) ↔ All (λ a. p a ≡ false) xs
keep-sorted_set-eq-nil p xs = (
  λ h.
      All_intro (λ a. p a ≡ false) xs
        λ a m.
          All-Mem (λ b. p b ≡ false) (sorted_set xs) a ((keep-eq-nil p (sorted_set xs)).0 h)
            (contains-sorted_set xs a ∙ m),
  λ h. (keep-eq-nil p (sorted_set xs)).1 (
      All_intro (λ a. p a ≡ false) (sorted_set xs)
        λ a m. All-Mem (λ b. p b ≡ false) xs a h (sym (contains-sorted_set xs a) ∙ m)),
)

not-false : (b : Bool) → (not b ≡ false) → b ≡ true
not-false b h = ground arith

excess-eq-nil : (app child : List Grant) → (excess app child ≡ []) ↔ All (IsHeld app) child
unfolding excess
excess-eq-nil app child = (
  λ h.
      All_map (λ g. not-false _) child
        ((All-map _ action_of child).0 ((keep-eq-nil _ _).0 ((sorted_set-eq-nil _).0 h))),
  λ h. (sorted_set-eq-nil _).1 (
      (keep-eq-nil _ _).1
        ((All-map _ action_of child).1 (All_map (λ g held. ap not held) child h))),
)

not_held_downward-eq-nil :
    (app child : List Grant)
    → (not_held_downward app child ≡ [])
      ↔ All (λ g. is_created g ≡ true → IsHeldDownward app g) child
unfolding not_held_downward downward
not_held_downward-eq-nil app child = (
  λ h.
      All_map (λ g k c. sym (contains-created app g) ∙ not-false _ (k c)) child
        ((All-map-keep _ action_of is_created child).0 ((keep-sorted_set-eq-nil _ _).0 h)),
  λ h. (keep-sorted_set-eq-nil _ _).1 (
      (All-map-keep _ action_of is_created child).1
        (All_map (λ g k c. ap not (contains-created app g ∙ k c)) child h)),
)

-- A rule that descendants waive is silent exactly when each grant that it is about is waived.
unless_allowed-eq-nil :
    (allowed : Bool) (r : Rule) (q : Grant → Bool) (child : List Grant)
    → (unless_allowed allowed r (sorted_set (map action_of (keep q child))) ≡ [])
      ↔ All (λ g. q g ≡ true → allowed ≡ true) child
unfolding unless_allowed
unless_allowed-eq-nil true r q child = (λ _. All_all (λ g c. refl) child, λ _. refl)
unless_allowed-eq-nil false r q child = (
  λ h.
      All_map (λ g k c. cc) child
        ((map-keep-eq-nil _ q child).0 ((sorted_set-eq-nil _).0 ((report-eq-nil r _).0 h))),
  λ h. (report-eq-nil r _).1 (
      (sorted_set-eq-nil _).1
        ((map-keep-eq-nil _ q child).1 (All_map (λ g k. ground arith) child h))),
)

-- What a manifest has to meet, whatever the order of its entries.
pub record IsClean (m : Manifest) : Type 0 where
  -- no action is declared twice for one scope
  pub app_once : Nodup (app_grants m)
  pub child_once : Nodup (child_grants m)
  -- a child holds only actions of the app
  pub held : All (IsHeld (app_grants m)) (child_grants m)
  -- an action over the sessions of a child needs the app's consent
  pub consented :
      All (λ g. g.scope ≡ created_sessions → allow_descendants m ≡ true) (child_grants m)
  -- and the app has to hold it over its own created sessions
  pub held_downward :
      All (λ g. g.scope ≡ created_sessions → IsHeldDownward (app_grants m) g) (child_grants m)
  -- a child that creates sessions needs the same consent
  pub creates_with_consent :
      All (λ g. g.action ≡ "session.create" → allow_descendants m ≡ true) (child_grants m)

abbrev Relates : List Grant → List Grant → Bool → Type 0
Relates app child allowed =
    All (IsHeld app) child
    × All (λ g. is_created g ≡ true → allowed ≡ true) child
    × All (λ g. is_created g ≡ true → IsHeldDownward app g) child
    × All (λ g. is_creation g ≡ true → allowed ≡ true) child

relate-eq-nil :
    (app child : List Grant) (allowed : Bool)
    → (relate app child allowed ≡ []) ↔ Relates app child allowed
unfolding relate downward creates
relate-eq-nil app child allowed = (
  λ h.
      let (e1, r1) = (append-eq-nil _ _).0 h in
      let (e2, r2) = (append-eq-nil _ _).0 r1 in
      let (e3, e4) = (append-eq-nil _ _).0 r2 in
      (
        (excess-eq-nil app child).0 ((report-eq-nil _ _).0 e1),
        (unless_allowed-eq-nil allowed _ is_created child).0 e2,
        (not_held_downward-eq-nil app child).0 ((report-eq-nil _ _).0 e3),
        (unless_allowed-eq-nil allowed _ is_creation child).0 e4,
      ),
  λ r. (append-eq-nil _ _).1 (
    (report-eq-nil _ _).1 ((excess-eq-nil app child).1 r.0),
    (append-eq-nil _ _).1 (
      (unless_allowed-eq-nil allowed _ is_created child).1 r.1,
      (append-eq-nil _ _).1 (
        (report-eq-nil _ _).1 ((not_held_downward-eq-nil app child).1 r.2),
        (unless_allowed-eq-nil allowed _ is_creation child).1 r.3,
      ),
    ),
  ),
)

guarded_relate-eq-nil :
    (app child : List Grant) (allowed : Bool)
    → ((if is_empty child then [] else relate app child allowed) ≡ []) ↔ Relates app child allowed
guarded_relate-eq-nil app [] allowed = (λ _. (tt, tt, tt, tt), λ _. refl)
guarded_relate-eq-nil app (g ∷ child) allowed = relate-eq-nil app (g ∷ child) allowed

created_iff : (g : Grant) → (is_created g ≡ true) ↔ (g.scope ≡ created_sessions)
created_iff g = ==_iff g.scope created_sessions

creation_iff : (g : Grant) → (is_creation g ≡ true) ↔ (g.action ≡ "session.create")
unfolding is_collection
creation_iff g = ground (arith, ==_iff "session.create" g.action)

-- A manifest has no violation exactly when no list of actions repeats a grant, every action of a
-- child session is one of the app's, an action over created sessions is consented to and held
-- over created sessions by the app, and the creation of sessions is consented to.
pub check_manifest-eq-nil : (m : Manifest) → (check_manifest m ≡ []) ↔ IsClean m
unfolding check_manifest
check_manifest-eq-nil m = (
  λ h.
      let (e1, r1) = (append-eq-nil _ _).0 h in
      let (e2, e3) = (append-eq-nil _ _).0 r1 in
      let related = (guarded_relate-eq-nil _ (child_grants m) _).0 e3 in
      record {
        app_once = (check_no_duplicate_scope-eq-nil _).0 e1;
        child_once = (check_no_duplicate_scope-eq-nil _).0 e2;
        held = related.0;
        consented = All_map (λ g k c. k ((created_iff g).1 c)) _ related.1;
        held_downward = All_map (λ g k c. k ((created_iff g).1 c)) _ related.2;
        creates_with_consent = All_map (λ g k c. k ((creation_iff g).1 c)) _ related.3;
      },
  λ c. (append-eq-nil _ _).1 (
    (check_no_duplicate_scope-eq-nil _).1 c.app_once,
    (append-eq-nil _ _).1 (
      (check_no_duplicate_scope-eq-nil _).1 c.child_once,
      (guarded_relate-eq-nil _ (child_grants m) _).1 (
        c.held,
        All_map (λ g k e. k ((created_iff g).0 e)) _ c.consented,
        All_map (λ g k e. k ((created_iff g).0 e)) _ c.held_downward,
        All_map (λ g k e. k ((creation_iff g).0 e)) _ c.creates_with_consent,
      ),
    ),
  ),
)
