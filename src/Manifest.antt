-- ===== src/Manifest.antt =====
-- contracts/app-manifest/v1alpha1/rules.py: the rules of an app manifest that relate one part of
-- the document to another. The texts of the messages are left out; a violation keeps its rule and
-- the actions that it names.
pub mod Grants
pub mod Duplicates
pub mod Acceptance
pub mod Authority
pub mod Offenders
mod Samples
use barista_apps.Prelude.{
  String, Bool, true, false, not, ◌&&◌, Option, none, some, List, [], ◌∷◌, ◌++◌, map, ◌==◌,
  text_equality, if◌then◌else◌, contains, keep, is_empty,
}
use barista_apps.Manifest.Grants.{
  Entry, Grant, grant_equality, to_string, normalize, created_sessions, is_collection, sorted_set,
}

pub data Rule : Type 0 where
  duplicate_action_scope child_actions_exceed_app : Rule
  child_created_scope_without_descendants child_created_scope_exceeds_app_scope : Rule
  child_create_without_descendants : Rule

pub record Violation : Type 0 where
  pub rule : Rule
  pub actions : List String

abbrev pub violation : Rule → List String → Violation
violation rule actions = record { rule = rule; actions = actions }

-- The parts of the document that the rules read; `none` is a missing key or a null.
pub record ChildSessions : Type 0 where
  pub actions : Option (List Entry)
  pub allow_descendants : Option Bool

pub record Permissions : Type 0 where
  pub actions : Option (List Entry)
  pub child_sessions : Option ChildSessions

pub record Manifest : Type 0 where
  pub permissions : Option Permissions

-- `x or {}`, and `entries or ()`
unfoldable pub entries_or_empty : Option (List Entry) → List Entry
entries_or_empty none = []
entries_or_empty (some entries) = entries

unfoldable pub permissions_of : Manifest → Permissions
permissions_of m = elim m.permissions [
  | none ↦ record { actions = none; child_sessions = none }
  | some p ↦ p
]

unfoldable pub child_of : Permissions → ChildSessions
child_of p = elim p.child_sessions [
  | none ↦ record { actions = none; allow_descendants = none }
  | some c ↦ c
]

unfoldable pub bool_or_false : Option Bool → Bool
bool_or_false none = false
bool_or_false (some b) = b

unfoldable pub app_grants : Manifest → List Grant
unfolding entries_or_empty permissions_of
app_grants m = normalize (entries_or_empty (permissions_of m).actions)

unfoldable pub child_grants : Manifest → List Grant
unfolding entries_or_empty permissions_of child_of
child_grants m = normalize (entries_or_empty (child_of (permissions_of m)).actions)

unfoldable pub allow_descendants : Manifest → Bool
unfolding permissions_of child_of bool_or_false
allow_descendants m = bool_or_false (child_of (permissions_of m)).allow_descendants

-- The loop of `_check_no_duplicate_scope`: `seen` is a set, `dupes` a list in order of discovery.
unfoldable pub dupes_from : List Grant → List String → List Grant → List String
dupes_from seen dupes [] = dupes
dupes_from seen dupes (g ∷ gs) =
    dupes_from (g ∷ seen)
      (if contains seen g && not (contains dupes (to_string g))
        then dupes ++ to_string g ∷ []
        else dupes)
      gs

-- `if not xs: nothing, else one violation that names xs`
unfoldable pub report : Rule → List String → List Violation
report rule [] = []
report rule (a ∷ actions) = violation rule (a ∷ actions) ∷ []

unfoldable pub check_no_duplicate_scope : List Grant → List Violation
unfolding dupes_from report
check_no_duplicate_scope gs = report duplicate_action_scope (dupes_from [] [] gs)

abbrev pub action_of : Grant → String
action_of g = g.action

abbrev pub is_created : Grant → Bool
is_created g = g.scope == created_sessions

abbrev pub is_creation : Grant → Bool
is_creation g = is_collection g.action

unfoldable pub excess : List Grant → List Grant → List String
excess app child =
    sorted_set (keep (λ a. not (contains (map action_of app) a)) (map action_of child))

unfoldable pub downward : List Grant → List String
downward child = sorted_set (map action_of (keep is_created child))

unfoldable pub not_held_downward : List Grant → List Grant → List String
not_held_downward app child =
    keep (λ a. not (contains (map action_of (keep is_created app)) a)) (downward child)

unfoldable pub creates : List Grant → List String
creates child = sorted_set (map action_of (keep is_creation child))

-- A rule that is waived where descendants are allowed.
unfoldable pub unless_allowed : Bool → Rule → List String → List Violation
unfolding report
unless_allowed allowed rule actions = if allowed then [] else report rule actions

-- R1 to R3, where there is child authority to relate.
unfoldable pub relate : List Grant → List Grant → Bool → List Violation
unfolding report unless_allowed
relate app child allowed =
    report child_actions_exceed_app (excess app child)
    ++ (unless_allowed allowed child_created_scope_without_descendants (downward child)
        ++ (report child_created_scope_exceeds_app_scope (not_held_downward app child)
            ++ unless_allowed allowed child_create_without_descendants (creates child)))

unfoldable pub check_manifest : Manifest → List Violation
unfolding check_no_duplicate_scope relate
check_manifest m =
    check_no_duplicate_scope (app_grants m)
    ++ (check_no_duplicate_scope (child_grants m)
        ++ (if is_empty (child_grants m)
            then []
            else relate (app_grants m) (child_grants m) (allow_descendants m)))
