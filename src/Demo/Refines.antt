-- ===== src/Demo/Refines.antt =====
-- integrations/github-factory-demo/barista_github_factory_demo/store.py: the deployment requests,
-- over any sequence of calls, as a function from the requests to what is known of them.
use barista_apps.Prelude.{
  ℕ, String, true, false, Option, none, some, List, [], ◌∷◌, ◌==◌, text_equality, ==_iff, ==_refl,
  if◌then◌else◌, ◌≡◌, refl, sym, subst, ◌∙◌, ap, inl, inr, arith, Bool-cases, Option-cases,
}
use barista_apps.Prelude.Tables.{
  fetch-append_none, fetch-holds, fetch, update, fetch-update-some, fetch-append_other,
}
use barista_apps.Demo.Rows.{Deployment}
use barista_apps.Demo.Store.{Store}
use barista_apps.Demo.Kept.{record_program_event-Keeps}
use barista_apps.Demo.Deployments.{
  Deployed, is_request, runs, new_deployment, claim_deployment, ended, complete_deployment,
  fail_deployment, get_deployment,
}

pub data Op : Type 0 where
  claim : ℕ → String → String → Op
  complete : ℕ → String → Deployed → Op
  fail : ℕ → String → String → Op

unfoldable pub run : List Op → Store → Store
unfolding claim_deployment complete_deployment fail_deployment
run [] s = s
run (claim now rid pid ∷ ops) s = run ops (claim_deployment now rid pid s).1
run (complete now rid result ∷ ops) s = run ops (complete_deployment now rid result s).1
run (fail now rid message ∷ ops) s = run ops (fail_deployment now rid message s)

-- A request that nobody made, or one of a program that runs, succeeded or failed.
pub data Phase : Type 0 where
  absent : Phase
  running succeeded failed : String → Phase

abbrev opened : String → Phase → Phase
opened pid absent = running pid
opened pid p = p

abbrev closed : (String → Phase) → Phase → Phase
closed end (running pid) = end pid
closed end p = p

abbrev at : (String → Phase) → String → (Phase → Phase) → String → Phase
at v rid f q = if rid == q then f (v q) else v q

-- The same calls on a function: a request is opened once, and is closed once.
unfoldable pub ideal : List Op → (String → Phase) → String → Phase
ideal [] v = v
ideal (claim now rid pid ∷ ops) v = ideal ops (at v rid (opened pid))
ideal (complete now rid result ∷ ops) v = ideal ops (at v rid (closed succeeded))
ideal (fail now rid message ∷ ops) v = ideal ops (at v rid (closed failed))

abbrev phase_of : Deployment → Phase
phase_of d =
    if d.state == "running"
    then running d.program_id
    else if d.state == "succeeded"
    then succeeded d.program_id
    else failed d.program_id

abbrev phase : Option Deployment → Phase
phase none = absent
phase (some d) = phase_of d

-- What is known of a request by its row.
unfoldable pub view : Store → String → Phase
unfolding get_deployment
view s rid = phase (get_deployment rid s)

closed_again :
    (end : String → Phase) (d : Deployment)
    → (d.state == "running") ≡ false
    → closed end (phase_of d) ≡ phase_of d
closed_again end d h = elim (Bool-cases (d.state == "succeeded")) [
  | inl e ↦ rw (h, e) refl
  | inr e ↦ rw (h, e) refl
]

opened_again : (pid : String) (d : Deployment) → opened pid (phase_of d) ≡ phase_of d
opened_again pid d = elim (Bool-cases (d.state == "running")) [
  | inl r ↦ rw r refl
  | inr r ↦ elim (Bool-cases (d.state == "succeeded")) [
    | inl e ↦ rw (r, e) refl
    | inr e ↦ rw (r, e) refl
  ]
]

-- One row, where its request ends if it runs.
ending_row :
    (rid q : String) (end : String → Phase) (f : Deployment → Deployment) (d : Deployment)
    → (d.request_id == q) ≡ true
    → phase_of (f d) ≡ end d.program_id
    → phase_of (if runs rid d then f d else d)
      ≡ (if rid == q then closed end (phase_of d) else phase_of d)
ending_row rid q end f d m k = elim (Bool-cases (rid == q)) [
  | inl e ↦
      let same =
        (==_iff d.request_id rid).1 (ground (arith, ==_iff d.request_id q, ==_iff rid q)) in
      elim (Bool-cases (d.state == "running")) [
        | inl r ↦ rw (e, same, r) k
        | inr r ↦ rw (e, same, closed_again end d r, r) (rw r refl)
      ]
  | inr e ↦
      let other : (d.request_id == rid) ≡ false =
        ground (arith, ==_iff d.request_id q, ==_iff d.request_id rid, ==_iff rid q) in
      rw (e, other) refl
]

-- A request after an update of those of an identifier that run.
ending :
    (rid q : String) (end : String → Phase) (f : Deployment → Deployment) (ds : List Deployment)
    → ((d : Deployment) → is_request q (f d) ≡ is_request q d)
    → ((d : Deployment) → phase_of (f d) ≡ end d.program_id)
    → phase (fetch (is_request q) (update (runs rid) f ds)) ≡ (
        if rid == q
        then closed end (phase (fetch (is_request q) ds))
        else phase (fetch (is_request q) ds))
ending rid q end f ds h k = elim (Option-cases (fetch (is_request q) ds)) [
  | inl p ↦ elim (Bool-cases (rid == q)) [
    | inl e ↦ rw (fetch-update-some (is_request q) (runs rid) f h ds, p, e) refl
    | inr e ↦ rw (fetch-update-some (is_request q) (runs rid) f h ds, p, e) refl
  ]
  | inr (d, p) ↦
      rw (fetch-update-some (is_request q) (runs rid) f h ds, p)
        (ending_row rid q end f d (fetch-holds (is_request q) ds d p) (k d))
]

claim_view :
    (now : ℕ) (rid pid q : String) (s : Store)
    → view (claim_deployment now rid pid s).1 q ≡ at (view s) rid (opened pid) q
unfolding claim_deployment view get_deployment
claim_view now rid pid q s = elim (Option-cases (fetch (is_request rid) s.deployments)) [
  | inl p ↦ elim (Bool-cases (rid == q)) [
    | inl e ↦
        subst (λ q. view (claim_deployment now rid pid s).1 q ≡ at (view s) rid (opened pid) q)
          ((==_iff rid q).0 e)
          (rw
            (
              p,
              fetch-append_none (is_request rid) s.deployments (new_deployment now rid pid) p
                  (==_refl rid),
              ==_refl rid,
            )
            refl)
    | inr e ↦
        rw (p, fetch-append_other (is_request q) s.deployments (new_deployment now rid pid) e, e)
          refl
  ]
  | inr (d, p) ↦ elim (Bool-cases (rid == q)) [
    | inl e ↦
        subst (λ q. view (claim_deployment now rid pid s).1 q ≡ at (view s) rid (opened pid) q)
          ((==_iff rid q).0 e)
          (elim (Bool-cases (d.program_id == pid)) [
            | inl m ↦ rw (p, m, ==_refl rid) (ap phase p ∙ sym (opened_again pid d))
            | inr m ↦ rw (p, m, ==_refl rid) (ap phase p ∙ sym (opened_again pid d))
          ])
    | inr e ↦ elim (Bool-cases (d.program_id == pid)) [
      | inl m ↦ rw (p, m, e) refl
      | inr m ↦ rw (p, m, e) refl
    ]
  ]
]

complete_view :
    (now : ℕ) (rid : String) (result : Deployed) (q : String) (s : Store)
    → view (complete_deployment now rid result s).1 q ≡ at (view s) rid (closed succeeded) q
unfolding complete_deployment view get_deployment ended
complete_view now rid result q s = elim (Option-cases (fetch (is_request rid) s.deployments)) [
  | inl p ↦ elim (Bool-cases (rid == q)) [
    | inl e ↦
        rw (p, e, ap (λ q. fetch (is_request q) s.deployments) (sym ((==_iff rid q).0 e)), p) refl
    | inr e ↦ rw (p, e) refl
  ]
  | inr (d, p) ↦ rw p (
      record_program_event-Keeps (λ t. view t q ≡ at (view s) rid (closed succeeded) q)
        (λ t es k. k) now d.program_id "product-deployed" _ (some now) (ended now rid result s)
        (ending rid q succeeded _ s.deployments (λ d. refl) (λ d. refl)))
]

fail_view :
    (now : ℕ) (rid message q : String) (s : Store)
    → view (fail_deployment now rid message s) q ≡ at (view s) rid (closed failed) q
unfolding fail_deployment view get_deployment
fail_view now rid message q s = ending rid q failed _ s.deployments (λ d. refl) (λ d. refl)

-- Over any sequence of claims, completions and failures, exceptions included, what is known of each
-- request is what the calls make of a function in which a request is opened by its first claim, for
-- the program of that claim, and closed once, by the first completion or failure after it.
pub run_refines :
    (ops : List Op) (s : Store) (rid : String) → view (run ops s) rid ≡ ideal ops (view s) rid
unfolding run ideal
run_refines [] s rid = refl
run_refines (claim now id pid ∷ ops) s rid =
    run_refines ops (claim_deployment now id pid s).1 rid
    ∙ ap (λ v. ideal ops v rid) (λ i q. claim_view now id pid q s i)
run_refines (complete now id result ∷ ops) s rid =
    run_refines ops (complete_deployment now id result s).1 rid
    ∙ ap (λ v. ideal ops v rid) (λ i q. complete_view now id result q s i)
run_refines (fail now id message ∷ ops) s rid =
    run_refines ops (fail_deployment now id message s) rid
    ∙ ap (λ v. ideal ops v rid) (λ i q. fail_view now id message q s i)
