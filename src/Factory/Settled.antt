-- ===== src/Factory/Settled.antt =====
-- apps/factory/barista_app_factory/coordinator.py: when one pass of `_mark_unreachable` is enough.
use barista_apps.Prelude.{
  String, true, false, none, List, [], ◌∷◌, ◌≡◌, inl, inr, refl, ◌∙◌, ◌==◌, ==_iff, ==_refl,
  text_equality, arith, contains, Mem, some, All, All_map, Option-cases,
}
use barista_apps.Prelude.Dict.{Dict, find, find-assign}
use barista_apps.Mission.{Task}
use barista_apps.Factory.State.{TaskState, pending, is_pending}
use barista_apps.Factory.Graph.{has_status, blocker, block, mark_one, mark_unreachable}
use barista_apps.Factory.Unreachable.{Lost, blocked_on, blocker-eq-none, mark_one-cases}

-- Every task stands after its dependencies.
abbrev pub InOrder : List Task → Type 0
InOrder [] = Unit
InOrder (t ∷ tasks) = All (λ u. contains t.depends_on u.id ≡ false) (t ∷ tasks) × InOrder tasks

-- A task that is still pending has no dependency that failed or is blocked.
abbrev pub IsSettled : Dict TaskState → Task → Type 0
IsSettled ts t =
    (u : TaskState)
    → find ts t.id ≡ some u
    → u.state ≡ pending
    → (d : String) → Mem d t.depends_on
    → Lost ts d
    → ⊥

unfoldable Unblocked : Dict TaskState → Task → Type 0
Unblocked ts t = has_status is_pending ts t.id ≡ true → blocker t.depends_on ts ≡ none

mark_one_other :
    (t : Task) (ts : Dict TaskState) (id : String)
    → (t.id == id) ≡ false
    → find (mark_one t ts) id ≡ find ts id
unfolding mark_one block has_status
mark_one_other t ts id n = elim (Option-cases (find ts t.id)) [
  | inl p ↦ ground (arith, p)
  | inr (u, p) ↦ elim (Option-cases (blocker t.depends_on ts)) [
    | inl q ↦ ground (arith, p, q)
    | inr (dep, q) ↦
        ground
          (arith, p, q, find-assign t.id id (blocked_on dep u) ts, ==_iff id t.id, ==_iff t.id id)
  ]
]

blocker_other :
    (t : Task) (ts : Dict TaskState) (ds : List String)
    → contains ds t.id ≡ false
    → blocker ds (mark_one t ts) ≡ blocker ds ts
unfolding blocker has_status
blocker_other t ts [] n = refl
blocker_other t ts (d ∷ ds) n =
    let e = mark_one_other t ts d (ground (arith, ==_iff t.id d, ==_iff d t.id)) in
    ground (arith, e, blocker_other t ts ds (ground arith))

pending_before :
    (t : Task) (ts : Dict TaskState) (id : String)
    → has_status is_pending (mark_one t ts) id ≡ true
    → has_status is_pending ts id ≡ true
unfolding has_status
pending_before t ts id h = elim (mark_one-cases t ts id) [
  | inl p ↦ ground (arith, p)
  | inr (u, dep, i, m, l, p, q, e) ↦ ground (arith, e)
]

mark_one-Unblocked : (t : Task) (ts : Dict TaskState) → Unblocked (mark_one t ts) t
unfolding Unblocked mark_one block has_status
mark_one-Unblocked t ts h = elim (Option-cases (find ts t.id)) [
  | inl p ↦ ground (arith, p)
  | inr (u, p) ↦ elim (Option-cases (blocker t.depends_on ts)) [
    | inl q ↦ ground (arith, p, q)
    | inr (dep, q) ↦ ground (arith, p, q, find-assign t.id t.id (blocked_on dep u) ts, ==_refl t.id)
  ]
]

still-Unblocked :
    (t u : Task) (ts : Dict TaskState)
    → contains t.depends_on u.id ≡ false
    → Unblocked ts t
    → Unblocked (mark_one u ts) t
unfolding Unblocked
still-Unblocked t u ts n h k = blocker_other u ts t.depends_on n ∙ h (pending_before u ts t.id k)

rest-Unblocked :
    (t : Task) (tasks : List Task) (ts : Dict TaskState)
    → All (λ u. contains t.depends_on u.id ≡ false) tasks
    → Unblocked ts t
    → Unblocked (mark_unreachable tasks ts) t
unfolding mark_unreachable
rest-Unblocked t [] ts a h = h
rest-Unblocked t (u ∷ tasks) ts a h =
    rest-Unblocked t tasks (mark_one u ts) a.1 (still-Unblocked t u ts a.0 h)

mark_unreachable-Unblocked :
    (tasks : List Task) (ts : Dict TaskState)
    → InOrder tasks
    → All (Unblocked (mark_unreachable tasks ts)) tasks
unfolding mark_unreachable
mark_unreachable-Unblocked [] ts o = tt
mark_unreachable-Unblocked (t ∷ tasks) ts (a, o) = (
  rest-Unblocked t tasks (mark_one t ts) a.1 (mark_one-Unblocked t ts),
  mark_unreachable-Unblocked tasks (mark_one t ts) o,
)

Unblocked-IsSettled : (ts : Dict TaskState) (t : Task) → Unblocked ts t → IsSettled ts t
unfolding Unblocked has_status
Unblocked-IsSettled ts t h u p q d m l =
    blocker-eq-none t.depends_on ts d (h (ground (arith, p, q))) m l

-- One pass is enough where every task is listed after its dependencies: no task that is still
-- pending then has a dependency that failed or is blocked.
pub mark_unreachable-IsSettled :
    (tasks : List Task) (ts : Dict TaskState)
    → InOrder tasks
    → All (IsSettled (mark_unreachable tasks ts)) tasks
mark_unreachable-IsSettled tasks ts o =
    All_map (Unblocked-IsSettled (mark_unreachable tasks ts)) tasks
      (mark_unreachable-Unblocked tasks ts o)
