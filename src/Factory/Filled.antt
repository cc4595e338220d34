-- ===== src/Factory/Filled.antt =====
-- apps/factory/barista_app_factory/coordinator.py: the pool is filled with tasks that may start, and
-- no slot is left idle while one may.
use barista_apps.Prelude.{
  ℕ, zero, suc, ◌+◌, ◌-◌, ◌≤◌, String, Bool, true, not, ◌&&◌, none, some, List, [], ◌∷◌, ◌++◌, keep,
  all, contains, length, length-append, ◌≡◌, refl, ◌⊎◌, inl, inr, arith, Mem, contains-append,
  Option-cases, ==_iff, text_equality, Bool-cases, sym, ◌∙◌, ap, subst, ◌↔◌, Listed, all_iff,
  All-Mem, All_intro, false,
}
use barista_apps.Prelude.Dict.{Dict, find}
use barista_apps.Mission.{Task}
use barista_apps.Factory.State.{TaskState, Status, is_ok}
use barista_apps.Factory.Graph.{ready, has_status, is_open}
use barista_apps.Factory.Pool.{head, next_task, submit, fill}

-- A task of the mission that may start: it is pending, or was found in flight, and every task that
-- it depends on has passed.
abbrev pub MayStart : List Task → Dict TaskState → String → Type 0
MayStart tasks ts id =
    (t : Task) × (u : TaskState) × Listed t tasks
    × (t.id ≡ id)
    × (find ts id ≡ some u)
    × ((u.state ≡ Status.pending) ⊎ (u.state ≡ Status.running))
    × ((d : String)
        → Mem d t.depends_on
        → (v : TaskState) × (find ts d ≡ some v) × (v.state ≡ Status.ok))

open_iff : (s : Status) → (is_open s ≡ true) ↔ ((s ≡ Status.pending) ⊎ (s ≡ Status.running))
open_iff Status.pending = (λ _. inl refl, λ _. refl)
open_iff Status.running = (λ _. inr refl, λ _. refl)
open_iff Status.ok = ground arith
open_iff Status.failed = ground arith
open_iff Status.blocked = ground arith

ok_eq : (s : Status) → is_ok s ≡ true → s ≡ Status.ok
ok_eq Status.ok e = refl
ok_eq Status.pending e = ground arith
ok_eq Status.running e = ground arith
ok_eq Status.failed e = ground arith
ok_eq Status.blocked e = ground arith

-- A test of the state of a task passes exactly where there is the task with such a state.
has_status_iff :
    (p : Status → Bool) (ts : Dict TaskState) (id : String)
    → (has_status p ts id ≡ true) ↔ ((u : TaskState) × (find ts id ≡ some u) × (p u.state ≡ true))
unfolding has_status
has_status_iff p ts id = elim (Option-cases (find ts id)) [
  | inl e ↦ (λ h. ground (arith, e), λ (u, q, r). ground (arith, e, q))
  | inr (u, e) ↦ (λ h. (u, e, ground (arith, e)), λ (v, q, r). ground (arith, q, r))
]

and_left : (a b : Bool) → (a && b) ≡ true → a ≡ true
and_left a b e = ground arith

and_right : (a b : Bool) → (a && b) ≡ true → b ≡ true
and_right a b e = ground arith

abbrev may_start : Dict TaskState → Task → Bool
may_start ts t = has_status is_open ts t.id && all (λ d. has_status is_ok ts d) t.depends_on

may_start-MayStart :
    (tasks : List Task) (ts : Dict TaskState) (t : Task)
    → Listed t tasks
    → may_start ts t ≡ true
    → MayStart tasks ts t.id
may_start-MayStart tasks ts t l e =
    let (u, f, o) = (has_status_iff is_open ts t.id).0 (and_left _ _ e) in
    (
      t,
      u,
      l,
      refl,
      f,
      (open_iff u.state).0 o,
      λ d m.
          let a = (all_iff (λ d. has_status is_ok ts d) t.depends_on).0 (and_right _ _ e) in
          let (v, g, k) =
            (has_status_iff is_ok ts d).0
              (All-Mem (λ d. has_status is_ok ts d ≡ true) t.depends_on d a m) in
          (v, g, ok_eq v.state k),
    )

MayStart-may_start :
    (tasks : List Task) (ts : Dict TaskState) (id : String)
    → MayStart tasks ts id
    → (t : Task) × Listed t tasks × (t.id ≡ id) × (may_start ts t ≡ true)
MayStart-may_start tasks ts id (t, u, l, i, f, o, k) =
    let a = (has_status_iff is_open ts t.id).1 (u, ap (find ts) i ∙ f, (open_iff u.state).1 o) in
    let b = (all_iff (λ d. has_status is_ok ts d) t.depends_on).1 (
      All_intro (λ d. has_status is_ok ts d ≡ true) t.depends_on
        (λ d m. let (v, g, p) = k d m in (has_status_iff is_ok ts d).1 (v, g, ap is_ok p))) in
    (t, l, i, ground (arith, a, b))

none_ne : {t : Task} → none ≡ some t → ⊥
none_ne e = cc

some_eq : {t u : Task} → some t ≡ some u → t ≡ u
some_eq e = cc

head-keep :
    (p q : Task → Bool) (tasks : List Task) (t : Task)
    → head (keep q (keep p tasks)) ≡ some t
    → Listed t tasks × (p t ≡ true) × (q t ≡ true)
head-keep p q [] t e = absurd (none_ne e)
head-keep p q (u ∷ tasks) t e = elim (Bool-cases (p u)) [
  | inr a ↦ let (l, x, y) = head-keep p q tasks t (rw a at e) in (inr l, x, y)
  | inl a ↦ elim (Bool-cases (q u)) [
    | inr b ↦ let (l, x, y) = head-keep p q tasks t (rw (a, b) at e) in (inr l, x, y)
    | inl b ↦
        let i : u ≡ t = some_eq (rw (a, b) at e) in (inl i, ap p (sym i) ∙ a, ap q (sym i) ∙ b)
  ]
]

next_MayStart :
    (tasks : List Task) (ts : Dict TaskState) (running : List String) (t : Task)
    → next_task tasks ts running ≡ some t
    → MayStart tasks ts t.id
unfolding next_task ready
next_MayStart tasks ts running t e =
    let (l, a, _) = head-keep (may_start ts) (λ t. not (contains running t.id)) tasks t e in
    may_start-MayStart tasks ts t l a

head-keep-none :
    (p q : Task → Bool) (tasks : List Task) (t : Task)
    → head (keep q (keep p tasks)) ≡ none
    → Listed t tasks
    → p t ≡ true
    → q t ≡ false
head-keep-none p q [] t e l h = absurd l
head-keep-none p q (u ∷ tasks) t e (inl i) h =
    subst (λ t. p t ≡ true → q t ≡ false) i (λ k. ground (arith, k)) h
head-keep-none p q (u ∷ tasks) t e (inr l) h = elim (Bool-cases (p u)) [
  | inr a ↦ head-keep-none p q tasks t (rw a at e) l h
  | inl a ↦ elim (Bool-cases (q u)) [
    | inr b ↦ head-keep-none p q tasks t (rw (a, b) at e) l h
    | inl b ↦ absurd (none_ne (sym (rw (a, b) at e)))
  ]
]

-- Without a next task, every task that may start is in flight.
next_task-none :
    (tasks : List Task) (ts : Dict TaskState) (running : List String)
    → next_task tasks ts running ≡ none
    → (id : String) → MayStart tasks ts id
    → Mem id running
unfolding next_task ready
next_task-none tasks ts running e id s =
    let (t, l, i, h) = MayStart-may_start tasks ts id s in
    let n = head-keep-none (may_start ts) (λ t. not (contains running t.id)) tasks t e l h in
    subst (λ id. Mem id running) i (ground (arith, n))

-- What a round of submissions leaves.
pub record IsFilled (limit : ℕ) (tasks : List Task) (ts : Dict TaskState)
    (before after : List String) : Type 0 where
  pub within : length after ≤ limit
  pub kept : (id : String) → Mem id before → Mem id after
  pub started : (id : String) → Mem id after → Mem id before ⊎ MayStart tasks ts id
  pub busy : (length after ≡ limit) ⊎ ((id : String) → MayStart tasks ts id → Mem id after)

submit-IsFilled :
    (slots limit : ℕ) (tasks : List Task) (ts : Dict TaskState) (running : List String)
    → slots + length running ≡ limit
    → IsFilled limit tasks ts running (submit slots tasks ts running)
unfolding submit
submit-IsFilled zero limit tasks ts running e = record {
  within = omega arith;
  kept = λ id m. m;
  started = λ id m. inl m;
  busy = inl (omega arith);
}
submit-IsFilled (suc slots) limit tasks ts running e =
    elim (Option-cases (next_task tasks ts running)) [
      | inl p ↦
          rw (p, submit)
            (record {
              within = omega arith;
              kept = λ id m. m;
              started = λ id m. inl m;
              busy = inr (next_task-none tasks ts running p);
            })
      | inr (t, p) ↦
          let r =
            submit-IsFilled slots limit tasks ts (running ++ t.id ∷ [])
              (omega (arith, length-append running (t.id ∷ []))) in
          rw (p, submit)
            (record {
              within = r.within;
              kept = λ id m. r.kept id (ground (arith, contains-append running (t.id ∷ []) id));
              started = λ id m. elim (r.started id m) [
                | inr s ↦ inr s
                | inl n ↦ elim (Bool-cases (contains running id)) [
                  | inl k ↦ inl k
                  | inr k ↦
                      let i : t.id ≡ id =
                        ground (arith, contains-append running (t.id ∷ []) id, ==_iff t.id id) in
                      inr (subst (MayStart tasks ts) i (next_MayStart tasks ts running t p))
                ]
              ];
              busy = r.busy;
            })
    ]

-- Where no more tasks are in flight than the mission allows, the pool is filled: no more are in
-- flight than that afterwards, those that were stay, each that is added is one of the mission, is
-- pending or was found running, and has every dependency passed, and a slot is left free only when
-- every such task is in flight.
pub fill-IsFilled :
    (concurrency : ℕ) (tasks : List Task) (ts : Dict TaskState) (running : List String)
    → length running ≤ concurrency
    → IsFilled concurrency tasks ts running (fill concurrency tasks ts running)
unfolding fill
fill-IsFilled concurrency tasks ts running h =
    submit-IsFilled (concurrency - length running) concurrency tasks ts running (omega arith)
