-- ===== src/Mission/Checks.antt =====
-- When the single checks of a mission pass.
use barista_apps.Prelude.{
  String, Bool, true, false, not, none, List, [], ◌∷◌, ◌≡◌, ◌≢◌, refl, ◌↔◌, ◌⊎◌, inl, inr, ◌==◌,
  text_equality, if◌then◌else◌, contains, keep, is_empty, All, All_map, Mem, Nodup, arith, ==_iff,
  Bool-cases, Mem-head, Mem-tail,
}
use barista_apps.Prelude.Result.{ok, err, ◌>>◌, guard}
use barista_apps.Mission.Paths.{normpath, looks_like_a_path}
use barista_apps.Mission.Graph.{Colours, Search, finished, cyclic, spent, search_roots, search_fuel}
use barista_apps.Mission.Acyclic.{Depends, direct, through, search_roots_sound}
use barista_apps.Mission.Cycles.{IsCycle-Depends}
use barista_apps.Mission.Termination.{Good, search_roots-Good}
use barista_apps.Mission.{
  Task, MissionError, Check, each, fixed_paths, ids, has_repetition, by_id, deps_of, check_known,
  of_search, check_acyclic, produces_name, check_consumed, check_argument, depends_on_itself,
  unknown_dependency,
}

pub guard-eq-ok : (b : Bool) (e : MissionError) → (guard b e ≡ ok tt) ↔ (b ≡ true)
guard-eq-ok true e = (λ _. refl, λ _. refl)
guard-eq-ok false e = (λ h. cc, λ h. cc)

pub >>-eq-ok_iff : (m k : Check) → ((m >> k) ≡ ok tt) ↔ (m ≡ ok tt) × (k ≡ ok tt)
>>-eq-ok_iff (ok tt) k = (λ h. (refl, h), λ h. h.1)
>>-eq-ok_iff (err e) k = (λ h. cc, λ h. cc)

each-eq-ok :
    {A : Type 0} (f : A → Check) (xs : List A) → (each f xs ≡ ok tt) ↔ All (λ x. f x ≡ ok tt) xs
unfolding each
each-eq-ok f [] = (λ _. tt, λ _. refl)
each-eq-ok f (x ∷ xs) = (
  λ h. let (e, r) = (>>-eq-ok_iff (f x) (each f xs)).0 h in (e, (each-eq-ok f xs).0 r),
  λ h. (>>-eq-ok_iff (f x) (each f xs)).1 (h.0, (each-eq-ok f xs).1 h.1),
)

pub each_iff :
    {A : Type 0} {P : A → Type 0} (f : A → Check)
    → ((x : A) → (f x ≡ ok tt) ↔ P x)
    → (xs : List A) → (each f xs ≡ ok tt) ↔ All P xs
each_iff f h xs = (
  λ e. All_map (λ x. (h x).0) xs ((each-eq-ok f xs).0 e),
  λ a. (each-eq-ok f xs).1 (All_map (λ x. (h x).1) xs a),
)

pub Nodup-iff : (xs : List String) → (not (has_repetition xs) ≡ true) ↔ Nodup xs
unfolding has_repetition
Nodup-iff [] = (λ _. tt, λ _. refl)
Nodup-iff (x ∷ xs) = (
  λ h. (ground arith, (Nodup-iff xs).0 (ground arith)),
  λ h. ground (arith, (Nodup-iff xs).1 h.1, h.0),
)

-- A dependency is another task of the mission.
abbrev pub IsKnown : List Task → Task → String → Type 0
IsKnown tasks task dep = (dep ≢ task.id) × Mem dep (ids tasks)

pub check_known-eq-ok :
    (tasks : List Task)
    → (check_known tasks ≡ ok tt) ↔ All (λ t. All (IsKnown tasks t) t.depends_on) tasks
unfolding check_known
check_known-eq-ok tasks = each_iff _ (λ t. each_iff _ (known t) t.depends_on) tasks
  where
    known :
        (t : Task) (dep : String)
        → ((if dep == t.id
              then err (depends_on_itself t.id)
              else guard (contains (ids tasks) dep) (unknown_dependency t.id dep))
            ≡ ok tt)
          ↔ IsKnown tasks t dep
    known t dep = (
      λ h. (λ e. ground (arith, ==_iff dep t.id), ground arith),
      λ h. ground (arith, ==_iff dep t.id, h.0, h.1),
    )

by_id_absent :
    (tasks : List Task) (x : String) → contains (ids tasks) x ≡ false → by_id tasks x ≡ none
unfolding by_id ids
by_id_absent [] x a = refl
by_id_absent (t ∷ ts) x a = ground (arith, by_id_absent ts x)

pub deps_of_total : (tasks : List Task) (x : String) → Mem x (ids tasks) ⊎ (deps_of tasks x ≡ [])
unfolding deps_of
deps_of_total tasks x = elim (Bool-cases (contains (ids tasks) x)) [
  | inl m ↦ inl m
  | inr a ↦ inr (rw (by_id_absent tasks x a, deps_of))
]

Depends-start : (deps : String → List String) {x y : String} → deps x ≡ [] → Depends deps x y → ⊥
Depends-start deps {x} {y} e (direct m) = ground (arith, e)
Depends-start deps {x} {y} e (through {y = w} m r) = ground (arith, e)

of_search-finished : (r : Search) → of_search r ≡ ok tt → (c : Colours) × (r ≡ finished c)
unfolding of_search
of_search-finished (finished c) e = (c, refl)
of_search-finished (cyclic l) e = cc
of_search-finished spent e = cc

pub check_acyclic-eq-ok :
    (tasks : List Task)
    → (check_acyclic tasks ≡ ok tt) ↔ ((x : String) → ¬ Depends (deps_of tasks) x x)
unfolding check_acyclic
check_acyclic-eq-ok tasks = (
  λ h x cycle.
      let (c, e) =
        of_search-finished (search_roots deps (search_fuel deps (ids tasks)) (ids tasks)) h in
      elim (deps_of_total tasks x) [
        | inl m ↦ search_roots_sound deps (search_fuel deps (ids tasks)) (ids tasks) c e x m cycle
        | inr none_left ↦ Depends-start deps none_left cycle
      ],
  λ acyclic.
      accepted acyclic (search_roots deps (search_fuel deps (ids tasks)) (ids tasks))
        (search_roots-Good deps (ids tasks) (deps_of_total tasks) (ids tasks)),
)
  where
    deps : String → List String
    deps = deps_of tasks

    accepted :
        ((x : String) → ¬ Depends deps x x)
        → (r : Search) → Good deps (ids tasks) (deps_of_total tasks) r
        → of_search r ≡ ok tt
    accepted acyclic (finished c) g = refl
    accepted acyclic (cyclic l) g = absurd (acyclic g.task (IsCycle-Depends deps l g))
    accepted acyclic spent g = absurd g

-- A dependency of the task produces what it consumes.
abbrev pub IsProduced : List Task → Task → String → Type 0
IsProduced tasks task name =
    (dep : String) × Mem dep task.depends_on × (produces_name tasks name dep ≡ true)

keep_found :
    (p : String → Bool) (xs : List String)
    → (not (is_empty (keep p xs)) ≡ true) ↔ ((x : String) × Mem x xs × (p x ≡ true))
keep_found p [] = (λ h. cc, λ (x, m, e). cc)
keep_found p (x ∷ xs) = elim (Bool-cases (p x)) [
  | inl e ↦ (λ h. (x, Mem-head x xs, e), λ _. rw e)
  | inr e ↦ (
    λ h. let (y, m, q) = (keep_found p xs).0 (rw e at h) in (y, Mem-tail x y xs m, q),
    λ (y, m, q). rw e ((keep_found p xs).1 (y, ground (arith, ==_iff x y), q)),
  )
]

pub check_consumed-eq-ok :
    (tasks : List Task) (task : Task) (name : String)
    → (check_consumed tasks task name ≡ ok tt) ↔ IsProduced tasks task name
unfolding check_consumed
check_consumed-eq-ok tasks task name = (
  λ h. (keep_found (produces_name tasks name) task.depends_on).0 (ground arith),
  λ h. rw ((keep_found (produces_name tasks name) task.depends_on).1 h) refl,
)

-- A check reads only what the task did not write, as far as its arguments name paths.
abbrev pub IsFixed : Task → String → Type 0
IsFixed task arg = looks_like_a_path arg ≡ true → Mem (normpath arg) (fixed_paths task)

pub check_argument-eq-ok :
    (task : Task) (arg : String) → (check_argument task arg ≡ ok tt) ↔ IsFixed task arg
unfolding check_argument
check_argument-eq-ok task arg = (λ h p. ground arith, λ h. ground (arith, h))
