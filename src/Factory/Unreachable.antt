-- ===== src/Factory/Unreachable.antt =====
-- apps/factory/barista_app_factory/coordinator.py: what one pass of `_mark_unreachable` does.
use barista_apps.Prelude.{
  String, true, Option, some, List, [], ◌∷◌, ◌≡◌, ◌⊎◌, inl, inr, refl, sym, ◌∙◌, ◌==◌, ==_iff,
  text_equality, arith, Mem, Mem-tail, Mem-cons, Listed, ◌↔◌, none, subst, Bool-cases, Option-cases,
}
use barista_apps.Prelude.Dict.{Dict, find, find-assign}
use barista_apps.Mission.{Task}
use barista_apps.Factory.State.{
  TaskState, Status, pending, running, ok, failed, blocked, is_pending,
}
use barista_apps.Factory.Graph.{has_status, is_lost, blocker, block, mark_one, mark_unreachable}

-- A task that is blocked on a dependency.
abbrev pub blocked_on : String → TaskState → TaskState
blocked_on dep t = record t { state = blocked; blocked_by = some dep }

-- A task that has failed or is blocked.
abbrev pub Lost : Dict TaskState → String → Type 0
Lost ts d = (u : TaskState) × (find ts d ≡ some u) × ((u.state ≡ failed) ⊎ (u.state ≡ blocked))

lost_iff : (s : Status) → (is_lost s ≡ true) ↔ ((s ≡ failed) ⊎ (s ≡ blocked))
lost_iff pending = ground arith
lost_iff running = ground arith
lost_iff ok = ground arith
lost_iff failed = (λ _. inl refl, λ _. refl)
lost_iff blocked = (λ _. inr refl, λ _. refl)

has_status-Lost : (ts : Dict TaskState) (d : String) → (has_status is_lost ts d ≡ true) ↔ Lost ts d
unfolding has_status
has_status-Lost ts d = elim (Option-cases (find ts d)) [
  | inl p ↦ (λ h. ground (arith, p), λ (u, q, r). ground (arith, p, q))
  | inr (u, p) ↦ (
    λ h. (u, p, (lost_iff u.state).0 (ground (arith, p))),
    λ (v, q, r). ground (arith, q, (lost_iff v.state).1 r),
  )
]

blocker-Lost :
    (ds : List String) (ts : Dict TaskState) (d : String)
    → blocker ds ts ≡ some d
    → Mem d ds × Lost ts d
unfolding blocker
blocker-Lost [] ts d e = ground arith
blocker-Lost (c ∷ ds) ts d e = elim (Bool-cases (has_status is_lost ts c)) [
  | inl p ↦
      let i : some c ≡ some d = rw (p, blocker) at e in
      let j : c ≡ d = cc in
      (ground (arith, ==_iff c d), subst (Lost ts) j ((has_status-Lost ts c).0 p))
  | inr p ↦ let (m, l) = blocker-Lost ds ts d (rw (p, blocker) at e) in (Mem-tail c d ds m, l)
]

-- Without a blocker no dependency is lost.
pub blocker-eq-none :
    (ds : List String) (ts : Dict TaskState) (d : String)
    → blocker ds ts ≡ none
    → Mem d ds
    → Lost ts d
    → ⊥
unfolding blocker
blocker-eq-none [] ts d e m l = ground arith
blocker-eq-none (c ∷ ds) ts d e m l = elim (Bool-cases (has_status is_lost ts c)) [
  | inl p ↦ ground (arith, p)
  | inr p ↦ elim (Mem-cons c d ds m) [
    | inl i ↦ ground (arith, p, i, (has_status-Lost ts d).1 l)
    | inr n ↦ blocker-eq-none ds ts d (rw (p, blocker) at e) n l
  ]
]

status-pending : (s : Status) → is_pending s ≡ true → s ≡ pending
status-pending pending e = refl
status-pending running e = ground arith
status-pending ok e = ground arith
status-pending failed e = ground arith
status-pending blocked e = ground arith

-- What one round does to the task of an identifier.
pub mark_one-cases :
    (t : Task) (ts : Dict TaskState) (id : String)
    → (find (mark_one t ts) id ≡ find ts id)
      ⊎ ((u : TaskState) × (dep : String) × (t.id ≡ id)
          × Mem dep t.depends_on
          × Lost ts dep
          × (find ts id ≡ some u)
          × (u.state ≡ pending)
          × (find (mark_one t ts) id ≡ some (blocked_on dep u)))
unfolding mark_one block has_status
mark_one-cases t ts id = elim (Option-cases (find ts t.id)) [
  | inl p ↦ inl (ground (arith, p))
  | inr (u, p) ↦ elim (Bool-cases (is_pending u.state)) [
    | inr q ↦ inl (ground (arith, p, q))
    | inl q ↦ elim (Option-cases (blocker t.depends_on ts)) [
      | inl r ↦ inl (ground (arith, p, q, r))
      | inr (dep, r) ↦ elim (Bool-cases (id == t.id)) [
        | inr n ↦ inl (ground (arith, p, q, r, n, find-assign t.id id (blocked_on dep u) ts))
        | inl n ↦
            let (m, l) = blocker-Lost t.depends_on ts dep r in
            inr (
              u,
              dep,
              ground (arith, n, ==_iff id t.id),
              m,
              l,
              ground (arith, p, n, ==_iff id t.id),
              status-pending u.state q,
              ground (arith, p, q, r, n, find-assign t.id id (blocked_on dep u) ts),
            )
      ]
    ]
  ]
]

mark_one-Lost : (t : Task) (ts : Dict TaskState) (d : String) → Lost ts d → Lost (mark_one t ts) d
mark_one-Lost t ts d (v, f, l) = elim (mark_one-cases t ts d) [
  | inl p ↦ (v, p ∙ f, l)
  | inr (u, dep, _, _, _, _, _, e) ↦ (blocked_on dep u, e, inr refl)
]

mark_unreachable-Lost :
    (tasks : List Task) (ts : Dict TaskState) (d : String)
    → Lost ts d
    → Lost (mark_unreachable tasks ts) d
unfolding mark_unreachable
mark_unreachable-Lost [] ts d l = l
mark_unreachable-Lost (t ∷ tasks) ts d l =
    mark_unreachable-Lost tasks (mark_one t ts) d (mark_one-Lost t ts d l)

-- What a pass does to the task of an identifier: nothing, or it was pending, is one of the mission,
-- and is blocked on a dependency of it that the pass leaves failed or blocked.
abbrev pub IsMarked : List Task → Dict TaskState → Dict TaskState → String → Type 0
IsMarked tasks ts ts' id =
    (find ts' id ≡ find ts id)
    ⊎ ((t : Task) × (u : TaskState) × (dep : String) × Listed t tasks
        × (t.id ≡ id)
        × Mem dep t.depends_on
        × Lost ts' dep
        × (find ts id ≡ some u)
        × (u.state ≡ pending)
        × (find ts' id ≡ some (blocked_on dep u)))

blocked_ne :
    (w : TaskState) (d : String) (u : TaskState) {o : Option TaskState}
    → o ≡ some (blocked_on d w)
    → o ≡ some u
    → u.state ≡ pending
    → ⊥
blocked_ne w d u p q r = ground arith

-- What a pass does to the task of an identifier: nothing, or the task was pending, has a dependency
-- that has failed or is blocked after the pass, and is blocked, with that dependency recorded and
-- all else kept.
pub mark_unreachable-IsMarked :
    (tasks : List Task) (ts : Dict TaskState) (id : String)
    → IsMarked tasks ts (mark_unreachable tasks ts) id
unfolding mark_unreachable
mark_unreachable-IsMarked [] ts id = inl refl
mark_unreachable-IsMarked (t ∷ tasks) ts id =
    elim (mark_unreachable-IsMarked tasks (mark_one t ts) id) [
      | inl p ↦ elim (mark_one-cases t ts id) [
        | inl q ↦ inl (p ∙ q)
        | inr (u, dep, i, m, l, q, r, e) ↦ inr (
          t,
          u,
          dep,
          inl refl,
          i,
          m,
          mark_unreachable-Lost tasks (mark_one t ts) dep (mark_one-Lost t ts dep l),
          q,
          r,
          p ∙ e,
        )
      ]
      | inr (v, u, dep, k, i, m, l, p, q, e) ↦ elim (mark_one-cases t ts id) [
        | inl r ↦ inr (v, u, dep, inr k, i, m, l, sym r ∙ p, q, e)
        | inr (w, d, _, _, _, _, _, f) ↦ absurd (blocked_ne w d u f p q)
      ]
    ]
