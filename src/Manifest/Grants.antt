-- ===== src/Manifest/Grants.antt =====
-- rules.py, `Grant` and `normalize`, and the sorted sets of names that the rules report.
use Prim.Native.Nat.{Ordering}
use Prim.Native.String.{compare, ◌++◌}
use text.Mathlib.TextEquality.{path_by_compare}
use barista_apps.Prelude.{
  String, Bool, true, ◌&&◌, ◌||◌, Option, none, some, List, [], ◌∷◌, ◌==◌, ◌≡◌, ◌≢◌, refl, ◌↔◌,
  HasEquality, text_equality, ==_iff, if◌then◌else◌, contains, arith,
}

abbrev pub own_session : String
own_session = "own_session"

abbrev pub created_sessions : String
created_sessions = "created_sessions"

-- One entry of a list of actions: an action id, an object with its scope, or a shape that the
-- schema rejects.
pub data Entry : Type 0 where
  bare : String → Entry
  object : String → Option String → Entry
  other : Entry

pub record Grant : Type 0 where
  pub action : String
  pub scope : String

-- The equality of the frozen dataclass: field by field.
unfoldable pub grant_beq : Grant → Grant → Bool
grant_beq g h = g.action == h.action && g.scope == h.scope

pub grant_beq_iff : (g h : Grant) → (grant_beq g h ≡ true) ↔ (g ≡ h)
unfolding grant_beq
grant_beq_iff g h = ground (arith, ==_iff g.action h.action, ==_iff g.scope h.scope)

instance abbrev pub grant_equality : HasEquality Grant
grant_equality = record { same = grant_beq; same_iff = grant_beq_iff }

-- `g.action in COLLECTION_ACTIONS`
unfoldable pub is_collection : String → Bool
is_collection action = contains ("session.create" ∷ []) action

-- Grant.__str__
unfoldable pub to_string : Grant → String
unfolding is_collection
to_string g = if is_collection g.action then g.action else g.action ++ ("@" ++ g.scope)

scope_or_own : Option String → String
scope_or_own none = own_session
scope_or_own (some scope) = scope

unfoldable pub normalize : List Entry → List Grant
unfolding scope_or_own
normalize [] = []
normalize (bare action ∷ entries) =
    record { action = action; scope = own_session } ∷ normalize entries
normalize (object action scope ∷ entries) =
    record { action = action; scope = scope_or_own scope } ∷ normalize entries
normalize (other ∷ entries) = normalize entries

-- `sorted({...})`: the elements in ascending order, each once.
insert_sorted : String → List String → List String
insert_sorted a [] = a ∷ []
insert_sorted a (b ∷ bs) = elim (compare a b) [
  | Ordering.lt ↦ a ∷ b ∷ bs
  | Ordering.eq ↦ b ∷ bs
  | Ordering.gt ↦ b ∷ insert_sorted a bs
]

unfoldable pub sorted_set : List String → List String
unfolding insert_sorted
sorted_set [] = []
sorted_set (a ∷ as') = insert_sorted a (sorted_set as')

contains-insert_sorted :
    (b a : String) (as' : List String)
    → contains (insert_sorted b as') a ≡ (b == a || contains as' a)
unfolding insert_sorted
contains-insert_sorted b a [] = refl
contains-insert_sorted b a (c ∷ cs) =
    ground (arith, contains-insert_sorted b a cs, ==_iff b a, ==_iff c a, path_by_compare b c)

-- Sorting and removing repetitions keeps the elements.
pub contains-sorted_set :
    (as' : List String) (a : String) → contains (sorted_set as') a ≡ contains as' a
unfolding sorted_set
contains-sorted_set [] a = refl
contains-sorted_set (b ∷ bs) a =
    ground (arith, contains-insert_sorted b a (sorted_set bs), contains-sorted_set bs a)

insert_sorted-ne-nil : (a : String) (bs : List String) → insert_sorted a bs ≢ []
unfolding insert_sorted
insert_sorted-ne-nil a [] h = cc
insert_sorted-ne-nil a (b ∷ bs) h = ground arith

pub sorted_set-eq-nil : (as' : List String) → (sorted_set as' ≡ []) ↔ (as' ≡ [])
unfolding sorted_set
sorted_set-eq-nil [] = (λ _. refl, λ _. refl)
sorted_set-eq-nil (a ∷ as') = (λ h. absurd (insert_sorted-ne-nil a (sorted_set as') h), λ h. cc)
