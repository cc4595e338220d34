-- ===== src/Factory/Recovery.antt =====
-- apps/factory/barista_app_factory/coordinator.py and grants.py: the attempt that a restart resumes,
-- and the secrets that a worker sees.
use text.Mathlib.Text.{starts_with}
use barista_apps.Prelude.{
  Option, ◌==◌, ◌⊎◌, ==_iff, if◌then◌else◌, String, true, false, none, some, List, [], ◌∷◌, ◌≡◌,
  refl, sym, ◌∙◌, ap, arith, ==_refl, text_equality, Option-cases, Bool-cases, inl, inr, ◌↔◌,
}
use barista_apps.Prelude.Dict.{Dict, find, assign, find-assign}
use barista_apps.Prelude.Result.{Result, ok, err}
use barista_apps.Mission.{Permissions, SecretRef}
use barista_apps.Factory.State.{MissionState, TaskState, Status, to_dict, open_state}
use barista_apps.Factory.Host.{with_task}
use barista_apps.Factory.Worker.{begun}
use barista_apps.Factory.Restart.{Known, open_state-Known}
use barista_apps.Factory.Grants.{
  WorkerGrant, ValueError, raw_secret, derive_worker_grant, first_raw, is_reference, refs_from,
}

begun_again :
    (w v : String) (ts : TaskState) → (begun v (begun w ts)).attempts ≡ (begun w ts).attempts
unfolding begun
begun_again w v ts = ground arith

begun_running : (w : String) (ts : TaskState) → (begun w ts).state ≡ Status.running
unfolding begun
begun_running w ts = refl

false_ne : false ≡ true → ⊥
false_ne e = cc

-- A restart in the middle of an attempt resumes that attempt: from the state that was saved when
-- the attempt began, the task is found in flight and begins with the same number of attempts, so
-- that its idempotency key is the same.
pub begun-IsResumed :
    (now mission w v id : String) (ids : List String) (ts : TaskState) (s : MissionState)
    → Known (with_task id (begun w ts) s).tasks ids
    → (u : TaskState) × (find
          (open_state now (some (to_dict (with_task id (begun w ts) s))) mission ids).tasks
          id
        ≡ some u)
      × (u.state ≡ Status.running)
      × ((begun v u).attempts ≡ (begun w ts).attempts)
begun-IsResumed now mission w v id ids ts s k = (
  begun w ts,
  ap (λ tasks. find tasks id) (open_state-Known now mission ids (with_task id (begun w ts) s) k)
      ∙ ground (arith, find-assign id id (begun w ts) s.tasks, ==_refl id),
  begun_running w ts,
  begun_again w v ts,
)

abbrev pub secrets_of : Permissions → List SecretRef
secrets_of p = elim p.secrets [ none ↦ [] | some ss ↦ ss ]

-- The reference that a mission gives for a name: the last one that it lists.
abbrev pub last_ref : List SecretRef → String → Option String
last_ref [] name = none
last_ref (s ∷ ss) name = elim (last_ref ss name) [
  | some r ↦ some r
  | none ↦ if s.name == name then some s.ref else none
]

-- What a secret may be given by.
abbrev pub IsReference : String → Type 0
IsReference r =
    (starts_with r "secret://" ≡ true)
    ⊎ (starts_with r "grant://" ≡ true)
    ⊎ (starts_with r "ref://" ≡ true)

IsReference-iff : (r : String) → (is_reference r ≡ true) ↔ IsReference r
unfolding is_reference
IsReference-iff r = ground arith

find-refs_from :
    (ss : List SecretRef) (d : Dict String) (name : String)
    → find (refs_from d ss) name ≡ elim (last_ref ss name) [ some r ↦ some r | none ↦ find d name ]
unfolding refs_from
find-refs_from [] d name = refl
find-refs_from (s ∷ ss) d name = ground (
  arith,
  find-refs_from ss (assign d s.name s.ref) name,
  find-assign s.name name s.ref d,
  ==_iff s.name name,
  ==_iff name s.name,
)

find-refs : (ss : List SecretRef) (name : String) → find (refs_from [] ss) name ≡ last_ref ss name
unfolding find
find-refs ss name = ground (arith, find-refs_from ss [] name)

-- No key stands twice.
abbrev Unique : Dict String → Type 0
Unique [] = Unit
Unique ((k, v) ∷ d) = (find d k ≡ none) × Unique d

Unique-assign : (d : Dict String) (k v : String) → Unique d → Unique (assign d k v)
unfolding assign find
Unique-assign [] k v u = (refl, tt)
Unique-assign ((j, w) ∷ d) k v (n, u) = elim (Bool-cases (k == j)) [
  | inl p ↦ rw p (n, u)
  | inr p ↦
      rw p
        (ground (arith, find-assign k j v d, n, p, ==_iff k j, ==_iff j k), Unique-assign d k v u)
]

Unique-refs_from : (ss : List SecretRef) (d : Dict String) → Unique d → Unique (refs_from d ss)
unfolding refs_from
Unique-refs_from [] d u = u
Unique-refs_from (s ∷ ss) d u =
    Unique-refs_from ss (assign d s.name s.ref) (Unique-assign d s.name s.ref u)

first_raw-none :
    (d : Dict String) (name r : String)
    → first_raw d ≡ none
    → find d name ≡ some r
    → is_reference r ≡ true
unfolding first_raw find
first_raw-none [] name r e f = ground arith
first_raw-none ((k, v) ∷ d) name r e f = ground (arith, first_raw-none d name r)

-- What is reported is the secret of a name.
first_raw-some :
    (d : Dict String) (r : String)
    → Unique d
    → first_raw d ≡ some r
    → (name : String) × (find d name ≡ some r) × (is_reference r ≡ false)
unfolding first_raw find
first_raw-some [] r u e = ground arith
first_raw-some ((k, v) ∷ d) r (n, u) e = elim (Bool-cases (is_reference v)) [
  | inr p ↦ (k, ground (arith, p, ==_refl k), ground (arith, p))
  | inl p ↦
      let (name, f, q) = first_raw-some d r u (rw (p, first_raw) at e) in
      (name, ground (arith, f, n, ==_iff name k), q)
]

-- What becomes of the secrets of a mission. A grant has what a worker needs, the egress of the
-- mission, and for each name the reference that the mission gives; a refusal names a secret that is
-- no reference.
abbrev pub IsDerived : Permissions → Result ValueError WorkerGrant → Type 0
IsDerived p (ok g) =
    (g.actions ≡ "session.exec" ∷ "session.events" ∷ "artifact.write" ∷ [])
    × (g.egress ≡ p.egress)
    × ((name : String)
        → (find g.secret_refs name ≡ last_ref (secrets_of p) name)
          × ((last_ref (secrets_of p) name ≡ none)
              ⊎ ((r : String) × (last_ref (secrets_of p) name ≡ some r) × IsReference r)))
IsDerived p (err (raw_secret r)) =
    (name : String) × (last_ref (secrets_of p) name ≡ some r) × (IsReference r → ⊥)

-- A grant is derived only where every secret that the mission's names have is a reference, and then
-- it has just those secrets, the three actions of a worker and the mission's egress; otherwise it is
-- refused with the secret of a name that is none.
pub derive_worker_grant-IsDerived : (p : Permissions) → IsDerived p (derive_worker_grant p)
unfolding derive_worker_grant
derive_worker_grant-IsDerived p =
    let ss = secrets_of p in
    elim (Option-cases (first_raw (refs_from [] ss))) [
      | inl e ↦
          rw (e, derive_worker_grant)
            (
              refl,
              refl,
              λ name. (
                find-refs ss name,
                elim (Option-cases (last_ref ss name)) [
                  | inl n ↦ inl n
                  | inr (r, l) ↦ inr (
                    r,
                    l,
                    (IsReference-iff r).0
                        (first_raw-none (refs_from [] ss) name r e (find-refs ss name ∙ l)),
                  )
                ],
              ),
            )
      | inr (r, e) ↦
          let (name, f, q) = first_raw-some (refs_from [] ss) r (Unique-refs_from ss [] tt) e in
          rw (e, derive_worker_grant)
            (name, sym (find-refs ss name) ∙ f, λ i. false_ne (sym q ∙ (IsReference-iff r).1 i))
    ]
