-- ===== src/Sdk/Waiting.antt =====
-- sdks/python/barista_app_sdk/lifecycle.py: the loops that wait end by their deadline.
use barista_apps.Prelude.{
  ℕ, zero, suc, ◌+◌, ◌-◌, ◌≤◌, ◌<◌, String, Option, none, some, List, [], ◌∷◌, ◌≡◌, ◌≢◌, ◌∙◌, ap,
  subst, inl, inr, arith, leb, min, ◌==◌, text_equality, contains, keep, Bool-cases,
}
use barista_apps.Prelude.Result.{Result, err}
use barista_apps.Prelude.Action.{Action, Answer-cases}
use barista_apps.Sdk.Lifecycle.{
  Artifact, Fault, out_of_fuel, Client, rounds, wait, running_round, artifact_round, chosen,
  wait_until_running, wait_for_result_artifact, failure_states, result_artifact,
}

-- The answer is not that the fuel is spent.
abbrev pub Ends : {A : Type 0} → Result Fault A → Type 0
Ends r = r ≢ err out_of_fuel

-- Time does not run backwards in a call, sleeping takes its time, and no call fails for want of fuel.
pub record IsTimely {H : Type 0} (client : Client H) : Type 0 where
  pub lists : (sid : String) (h : H) → client.now h ≤ client.now (client.list_artifacts sid h).1
  pub states : (sid : String) (h : H) → client.now h ≤ client.now (client.session_state sid h).1
  pub sleeps : (d : ℕ) (h : H) → client.now h + d ≤ client.now (client.sleep d h)
  pub lists_end : (sid : String) (h : H) → Ends (client.list_artifacts sid h).0
  pub states_end : (sid : String) (h : H) → Ends (client.session_state sid h).0

err_again :
    {A B : Type 0} {x : Fault}
    → Path (Result Fault A) (err x) (err out_of_fuel)
    → Path (Result Fault B) (err x) (err out_of_fuel)
err_again e = cc

module _ {H : Type 0} (client : Client H) (timely : IsTimely client) where
  -- A round of waiting takes no time away and does not fail for want of fuel.
  abbrev IsRound : {A : Type 0} → Action Fault H (Option A) → Type 0
  IsRound round = (h : H) → (client.now h ≤ client.now (round h).1) × Ends (round h).0

  rounds-Ends :
      {A : Type 0} (round : Action Fault H (Option A)) (late : String) (deadline poll fuel : ℕ)
      (o : Option A) (h : H)
      → 0 < poll
      → IsRound round
      → deadline - client.now h < fuel
      → Ends (rounds client round late deadline poll fuel o h).0
  rounds-Ends round late deadline poll zero o h p r lt = absurd (omega arith)
  rounds-Ends round late deadline poll (suc fuel) (some a) h p r lt = λ e. cc
  rounds-Ends round late deadline poll (suc fuel) none h p r lt =
      elim (Bool-cases (leb deadline (client.now h))) [
        | inl q ↦ rw (q, rounds) (λ e. cc)
        | inr q ↦
            let h1 = client.sleep (min poll (deadline - client.now h)) h in
            let slept = timely.sleeps (min poll (deadline - client.now h)) h in
            elim (Answer-cases (round h1)) [
              | inr (x, h2, s) ↦ rw (q, s, rounds) (λ e. (r h1).1 (ap (λ o. o.0) s ∙ err_again e))
              | inl (o, h2, s) ↦
                  rw (q, s, rounds)
                    (rounds-Ends round late deadline poll fuel o h2 p r
                      (ground (arith, q, slept, (r h1).0, ap (λ o. o.1) s)))
            ]
      ]

  wait-Ends :
      {A : Type 0} (round : Action Fault H (Option A)) (late : String) (deadline poll fuel : ℕ)
      (h : H)
      → 0 < poll
      → IsRound round
      → deadline - client.now h < fuel
      → Ends (wait client round late deadline poll fuel h).0
  unfolding wait
  wait-Ends round late deadline poll fuel h p r lt = elim (Answer-cases (round h)) [
    | inr (x, h2, s) ↦ rw s (λ e. (r h).1 (ap (λ o. o.0) s ∙ err_again e))
    | inl (o, h2, s) ↦ rw s (
        rounds-Ends round late deadline poll fuel o h2 p r
          (omega (arith, (r h).0, ap (λ o. client.now o.1) s)))
  ]

  state_of :
      (sid : String) (h : H) {r : Result Fault String} {h1 : H}
      → client.session_state sid h ≡ (r, h1)
      → (client.now h ≤ client.now h1) × Ends r
  state_of sid h e =
      subst (λ (o : Result Fault String × H). (client.now h ≤ client.now o.1) × Ends o.0) (e)
        (timely.states sid h, timely.states_end sid h)

  running_round-IsRound : (sid : String) → IsRound (running_round client sid)
  unfolding running_round
  running_round-IsRound sid h = elim (Answer-cases (client.session_state sid h)) [
    | inr (x, h1, s) ↦ rw s ((state_of sid h s).0, λ e. (state_of sid h s).1 (err_again e))
    | inl (state, h1, s) ↦ rw s (elim (Bool-cases (state == "running")) [
      | inl p ↦ rw p ((state_of sid h s).0, λ e. cc)
      | inr p ↦ elim (Bool-cases (contains failure_states state)) [
        | inl q ↦ rw (p, q) ((state_of sid h s).0, λ e. cc)
        | inr q ↦ rw (p, q) ((state_of sid h s).0, λ e. cc)
      ]
    ])
  ]

  chosen-IsRound : (sid : String) (found : List Artifact) → IsRound (chosen client sid found)
  chosen-IsRound sid (a ∷ b ∷ more) h = (omega arith, λ e. cc)
  chosen-IsRound sid (a ∷ []) h = (omega arith, λ e. cc)
  chosen-IsRound sid [] h = elim (Answer-cases (client.session_state sid h)) [
    | inr (x, h1, s) ↦ rw s ((state_of sid h s).0, λ e. (state_of sid h s).1 (err_again e))
    | inl (state, h1, s) ↦ rw s (elim (Bool-cases (contains failure_states state)) [
      | inl q ↦ rw q ((state_of sid h s).0, λ e. cc)
      | inr q ↦ rw q ((state_of sid h s).0, λ e. cc)
    ])
  ]

  artifact_round-IsRound : (sid : String) → IsRound (artifact_round client sid)
  unfolding artifact_round
  artifact_round-IsRound sid h = elim (Answer-cases (client.list_artifacts sid h)) [
    | inr (x, h1, s) ↦ rw s (
      subst (λ (o : Result Fault (List Artifact) × H). client.now h ≤ client.now o.1) (s)
          (timely.lists sid h),
      λ e. timely.lists_end sid h (ap (λ o. o.0) s ∙ err_again e),
    )
    | inl (found, h1, s) ↦
        let r = chosen-IsRound sid (keep (λ a. a.name == result_artifact) found) h1 in
        rw s (omega (arith, r.0, timely.lists sid h, ap (λ o. client.now o.1) s), r.1)
  ]

  -- Where the client is timely and the pause between two looks is not zero, waiting for a result and
  -- waiting for a session to run both end by their deadline: as many rounds as the timeout has ticks,
  -- and one more, are enough.
  pub wait_for_result_artifact-Ends :
      (sid : String) (timeout poll fuel : ℕ) (h : H)
      → 0 < poll
      → timeout < fuel
      → Ends (wait_for_result_artifact client sid timeout poll fuel h).0
        × Ends (wait_until_running client sid timeout poll fuel h).0
  unfolding wait_for_result_artifact wait_until_running
  wait_for_result_artifact-Ends sid timeout poll fuel h p lt = (
    wait-Ends (artifact_round client sid) "app_run.result_timeout" (client.now h + timeout) poll
        fuel h p (artifact_round-IsRound sid) (omega arith),
    wait-Ends (running_round client sid) "app_run.readiness_timeout" (client.now h + timeout) poll
        fuel h p (running_round-IsRound sid) (omega arith),
  )
