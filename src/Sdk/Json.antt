-- ===== src/Sdk/Json.antt =====
-- JSON values as sdks/python/barista_app_sdk/runs.py reads them: what a parsed document holds. A
-- number is kept as its text. Freezing a document changes none of its values.
use barista_apps.Prelude.{
  String, Bool, Option, none, some, List, [], ◌∷◌, ◌==◌, text_equality, if◌then◌else◌, contains,
}

mutual
  pub data Json : Type 0 where
    null : Json
    boolean : Bool → Json
    number : String → Json
    string : String → Json
    array : Items → Json
    object : Members → Json

  pub data Items : Type 0 where
    nil : Items
    item : Json → Items → Items

  -- The items of a `dict`, in the order of insertion.
  pub data Members : Type 0 where
    empty : Members
    member : String → Json → Members → Members

-- value.get(key)
unfoldable pub get : Members → String → Option Json
get empty k = none
get (member j v ms) k = if j == k then some v else get ms k

-- `sorted(set(value) - allowed)` is empty just where this is.
unfoldable pub unknown : List String → Members → List String
unknown allowed empty = []
unknown allowed (member k v ms) =
    let rest = unknown allowed ms in if contains allowed k then rest else k ∷ rest
