-- ===== src/Mission/Graph.antt =====
-- mission.py, `_enforce_graph`: the depth-first search for a dependency cycle, with an explicit
-- stack and three colours. `deps` is `tasks[node].depends_on`. The stack and the path are kept
-- with their last element first.
use barista_apps.Prelude.{
  ℕ, zero, suc, ◌+◌, ◌*◌, length, String, Bool, true, false, List, [], ◌∷◌, ◌==◌, text_equality,
  if◌then◌else◌,
}
use mathlib.Core.List.{reverse}

pub data Colour : Type 0 where
  white grey black : Colour

abbrev pub Colours : Type 0
Colours = String → Colour

abbrev pub paint : Colours → String → Colour → Colours
paint colour k c j = if k == j then c else colour j

abbrev pub Stack : Type 0
Stack = List (String × Bool)

pub data Search : Type 0 where
  finished : Colours → Search
  cyclic : List String → Search
  spent : Search

-- `path[path.index(dep):]` of a path that is kept in reverse.
abbrev pub up_to : String → List String → List String
up_to k [] = []
up_to k (x ∷ xs) = let rest = up_to k xs in if x == k then x ∷ [] else x ∷ rest

pub data Scan : Type 0 where
  pushed : Stack → Scan
  closed : List String → Scan

-- The loop over the dependencies of the node that has just been entered.
unfoldable pub scan : Colours → List String → List String → Stack → Scan
scan colour path [] stack = pushed stack
scan colour path (d ∷ ds) stack = elim (colour d) [
  | grey ↦ closed (reverse (d ∷ up_to d path))
  | white ↦ scan colour path ds ((d, false) ∷ stack)
  | black ↦ scan colour path ds stack
]

abbrev pub pop : List String → List String
pop [] = []
pop (x ∷ xs) = xs

module _ (deps : String → List String) where
  -- Each edge can put one entry on the stack, which takes two steps; so does the root.
  unfoldable pub search_fuel : List String → ℕ
  search_fuel [] = 3
  search_fuel (x ∷ xs) = 2 * length (deps x) + search_fuel xs

  -- The `while stack` loop.
  unfoldable pub search : ℕ → Colours → List String → Stack → Search
  search zero colour path stack = spent
  search (suc fuel) colour path [] = finished colour
  search (suc fuel) colour path ((node, true) ∷ stack) =
      search fuel (paint colour node black) (pop path) stack
  search (suc fuel) colour path ((node, false) ∷ stack) =
      elim (scan (paint colour node grey) (node ∷ path) (deps node) ((node, true) ∷ stack)) [
        | pushed stack' ↦ search fuel (paint colour node grey) (node ∷ path) stack'
        | closed cycle ↦ cyclic cycle
      ]

  -- The `for root in tasks` loop.
  unfoldable pub search_from : ℕ → Colours → List String → Search
  search_from fuel colour [] = finished colour
  search_from fuel colour (root ∷ roots) = elim (colour root) [
    | white ↦ elim (search fuel colour [] ((root, false) ∷ [])) [
      | finished colour' ↦ search_from fuel colour' roots
      | cyclic cycle ↦ cyclic cycle
      | spent ↦ spent
    ]
    | grey ↦ search_from fuel colour roots
    | black ↦ search_from fuel colour roots
  ]

  unfoldable pub search_roots : ℕ → List String → Search
  search_roots fuel roots = search_from fuel (λ _. white) roots
