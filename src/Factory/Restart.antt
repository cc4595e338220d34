-- ===== src/Factory/Restart.antt =====
-- apps/factory/barista_app_factory/state.py: what a restart finds, and what the summary counts.
use barista_apps.Prelude.{
  ℕ, ◌+◌, String, Option, none, some, List, [], ◌∷◌, ◌≡◌, ◌≢◌, refl, All, arith, ◌⊎◌, inl, inr,
  contains, Mem, Option-cases, Bool-cases, text_equality, if◌then◌else◌, false, number_equality,
  ==_iff, length,
}
use barista_apps.Prelude.Dict.{Dict, find, assign, find-assign}
use barista_apps.Factory.State.{
  MissionState, MissionStatus, TaskState, Status, new_task, to_dict, from_dict, open_state, resumed,
  add_missing, summary, count, is_ok, is_pending, is_running, is_failed, is_blocked,
}

-- Every identifier has its task.
abbrev pub Known : Dict TaskState → List String → Type 0
Known ts ids = All (λ id. (t : TaskState) × (find ts id ≡ some t)) ids

add_missing-Known :
    (ids : List String) (ts : Dict TaskState) → Known ts ids → add_missing ids ts ≡ ts
unfolding add_missing
add_missing-Known [] ts k = refl
add_missing-Known (id ∷ ids) ts ((t, p), k) = rw p (add_missing-Known ids ts k)

-- Where the state has a task for each identifier, the tasks are the saved ones.
pub open_state-Known :
    (now mission : String) (ids : List String) (s : MissionState)
    → Known s.tasks ids
    → (open_state now (some (to_dict s)) mission ids).tasks ≡ s.tasks
unfolding open_state from_dict to_dict
open_state-Known now mission ids s k = add_missing-Known ids s.tasks k

find-add_missing :
    (ids : List String) (ts : Dict TaskState) (q : String)
    → find (add_missing ids ts) q ≡ elim (find ts q) [
      | some t ↦ some t
      | none ↦ if contains ids q then some (new_task q) else none
    ]
unfolding add_missing
find-add_missing [] ts q = elim (Option-cases (find ts q)) [
  | inl p ↦ rw p refl
  | inr (t, p) ↦ rw p refl
]
find-add_missing (id ∷ ids) ts q = elim (Option-cases (find ts id)) [
  | inr (t, p) ↦ ground (arith, p, find-add_missing ids ts q, ==_iff id q)
  | inl p ↦ ground (
    arith,
    p,
    find-add_missing ids (assign ts id (new_task id)) q,
    find-assign id q (new_task id) ts,
    ==_iff id q,
    ==_iff q id,
  )
]

-- What a restart finds under an identifier: the task that was saved; or, for one of the mission that
-- had none, a task that has not been tried; or none.
abbrev pub IsFound : Dict TaskState → List String → String → Dict TaskState → Type 0
IsFound before ids q after =
    ((t : TaskState) × (find before q ≡ some t) × (find after q ≡ some t))
    ⊎ ((t : TaskState) × (find before q ≡ none)
        × Mem q ids
        × (find after q ≡ some t)
        × (t.id ≡ q)
        × (t.state ≡ Status.pending)
        × (t.attempts ≡ 0)
        × (t.worker ≡ none)
        × (t.receipt ≡ none))
    ⊎ ((find before q ≡ none) × (contains ids q ≡ false) × (find after q ≡ none))

-- A state that is taken up again.
pub record IsReopened (s : MissionState) (ids : List String) (after : MissionState) : Type 0 where
  pub mission : after.mission ≡ s.mission
  pub coordinator : after.coordinator_session_id ≡ s.coordinator_session_id
  pub started : after.started_at ≡ s.started_at
  pub finished : after.finished_at ≡ s.finished_at
  pub credential : after.credential ≡ s.credential
  pub authority_lost : after.authority_lost ≡ none
  pub state :
      ((s.state ≡ MissionStatus.done) × (after.state ≡ MissionStatus.done))
      ⊎ ((s.state ≢ MissionStatus.done) × (after.state ≡ MissionStatus.running))
  pub tasks : (q : String) → IsFound s.tasks ids q after.tasks

add_missing-IsFound :
    (ids : List String) (ts : Dict TaskState) (q : String) → IsFound ts ids q (add_missing ids ts)
add_missing-IsFound ids ts q =
    let e = find-add_missing ids ts q in
    elim (Option-cases (find ts q)) [
      | inr (t, p) ↦ inl (t, p, ground (arith, e, p))
      | inl p ↦ elim (Bool-cases (contains ids q)) [
        | inl m ↦
            inr (inl (new_task q, p, m, ground (arith, e, p, m), refl, refl, refl, refl, refl))
        | inr m ↦ inr (inr (p, m, ground (arith, e, p, m)))
      ]
    ]

resumed-done :
    (m : MissionStatus)
    → ((m ≡ MissionStatus.done) × (resumed (some m) ≡ MissionStatus.done))
      ⊎ ((m ≢ MissionStatus.done) × (resumed (some m) ≡ MissionStatus.running))
unfolding resumed
resumed-done MissionStatus.running = inr (λ e. cc, refl)
resumed-done MissionStatus.done = inl (refl, refl)
resumed-done MissionStatus.lost_authority = inr (λ e. cc, refl)

-- A restart from the saved state finds each saved task as it was, with its attempts, worker, receipt
-- and outputs, and a task that has not been tried for each identifier of the mission that had none,
-- and no other; lost authority is forgotten, the mission is done if it was done and runs otherwise,
-- and all else is kept.
pub open_state-IsReopened :
    (now mission : String) (ids : List String) (s : MissionState)
    → IsReopened s ids (open_state now (some (to_dict s)) mission ids)
unfolding open_state from_dict to_dict
open_state-IsReopened now mission ids s = record {
  mission = refl;
  coordinator = refl;
  started = refl;
  finished = refl;
  credential = refl;
  authority_lost = refl;
  state = resumed-done s.state;
  tasks = add_missing-IsFound ids s.tasks;
}

abbrev pub or_zero : Option ℕ → ℕ
or_zero none = 0
or_zero (some n) = n

counts :
    (ts : Dict TaskState)
    → length ts
      ≡ count is_ok ts
        + count is_failed ts
        + (count is_pending ts + count is_running ts)
        + count is_blocked ts
unfolding count
counts [] = omega arith
counts ((id, t) ∷ ts) =
    elim t.state
      as (λ (s : Status).
        length ((id, t) ∷ ts)
        ≡ count is_ok ((id, record t { state = s }) ∷ ts)
          + count is_failed ((id, record t { state = s }) ∷ ts)
          + (count is_pending ((id, record t { state = s }) ∷ ts)
              + count is_running ((id, record t { state = s }) ∷ ts))
          + count is_blocked ((id, record t { state = s }) ∷ ts)) [
            | Status.pending ↦ omega (arith, counts ts)
            | Status.running ↦ omega (arith, counts ts)
            | Status.ok ↦ omega (arith, counts ts)
            | Status.failed ↦ omega (arith, counts ts)
            | Status.blocked ↦ omega (arith, counts ts)
          ]

-- The summary counts each task once: the total is the sum of the tasks that passed, failed, are
-- still to be done, and are blocked.
pub summary-total :
    (s : MissionState)
    → (summary s).total
      ≡ (summary s).ok + (summary s).failed + (summary s).pending + or_zero (summary s).blocked
unfolding summary
summary-total s = ground (arith, counts s.tasks, ==_iff (count is_blocked s.tasks) 0)
