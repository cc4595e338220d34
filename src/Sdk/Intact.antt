-- ===== src/Sdk/Intact.antt =====
-- sdks/python/barista_app_sdk/lifecycle.py: a session is deleted only when its result has been
-- verified and written.

use barista_apps.Prelude.{
  ℕ, zero, suc, ◌+◌, ◌-◌, ◌/◌, String, true, false, ◌&&◌, Option, none, some, List, [], ◌∷◌, ◌≡◌,
  ap, subst, ◌⊎◌, inl, inr, leb, ltb, eqb, max, min, length, ◌==◌, text_equality, contains,
  Bool-cases,
}
use barista_apps.Prelude.Dict.{Dict}
use barista_apps.Prelude.Result.{ok}
use barista_apps.Prelude.Action.{Action, lifted, Answer-cases, Keeps, >>=-Keeps, checked-Keeps}
use barista_apps.Sdk.Json.{Json, null, boolean, number, string, array, object}
use barista_apps.Sdk.Runs.{AppRun}
use barista_apps.Sdk.Lifecycle.{
  Artifact, Fault, refused, value_error, Client, Codecs, rounds, wait, artifact_round, chosen,
  wait_for_result_artifact, failure_states, result_media_type,
}
use barista_apps.Sdk.Collect.{
  Options, Collected, output_of, before_colon, identifies, same_bytes, read_result_bytes, digest,
  loaded, verified, persisted, collect_only, collect_app_run_result,
}
use barista_apps.Sdk.Verified.{IsCollected, collect_only-IsCollected}

-- A statement of the world that holds on whatever the client does, save a deletion.
pub record IsKept {H : Type 0} (client : Client H) (K : H → Type 0) : Type 0 where
  pub lists : (sid : String) → Keeps K (client.list_artifacts sid)
  pub states : (sid : String) → Keeps K (client.session_state sid)
  pub execs :
      (sid : String) (argv : List String) (key : String) → Keeps K (client.exec sid argv key)
  pub waits : (id : String) (timeout : ℕ) → Keeps K (client.wait_operation id timeout)
  pub reads : (sid : String) (from : Option String) (n : ℕ) → Keeps K (client.events sid from n)
  pub writes : (path : String) (bs : List ℕ) → Keeps K (client.write path bs)
  pub sleeps : (d : ℕ) (h : H) → K h → K (client.sleep d h)

module _ {H : Type 0} (client : Client H) (codecs : Codecs) (K : H → Type 0)
    (kept : IsKept client K) where
  rounds-Keeps :
      {A : Type 0} (round : Action Fault H (Option A)) (late : String) (deadline poll fuel : ℕ)
      (o : Option A)
      → Keeps K round
      → Keeps K (rounds client round late deadline poll fuel o)
  rounds-Keeps round late deadline poll zero o r h k = k
  rounds-Keeps round late deadline poll (suc fuel) (some a) r h k = k
  rounds-Keeps round late deadline poll (suc fuel) none r h k =
      elim (Bool-cases (leb deadline (client.now h))) [
        | inl q ↦ rw (q, rounds) k
        | inr q ↦
            rw (q, rounds)
              (>>=-Keeps K round (rounds client round late deadline poll fuel) r
                (λ o. rounds-Keeps round late deadline poll fuel o r)
                (client.sleep (min poll (deadline - client.now h)) h)
                (kept.sleeps (min poll (deadline - client.now h)) h k))
      ]

  chosen-Keeps : (sid : String) (found : List Artifact) → Keeps K (chosen client sid found)
  chosen-Keeps sid (a ∷ b ∷ more) = λ h k. k
  chosen-Keeps sid (a ∷ []) = λ h k. k
  chosen-Keeps sid [] = >>=-Keeps K (client.session_state sid) _ (kept.states sid) (λ state h k.
      elim (Bool-cases (contains failure_states state)) [ inl q ↦ rw q k | inr q ↦ rw q k ])

  wait_for_result_artifact-Keeps :
      (sid : String) (timeout poll fuel : ℕ)
      → Keeps K (wait_for_result_artifact client sid timeout poll fuel)
  unfolding wait_for_result_artifact wait artifact_round
  wait_for_result_artifact-Keeps sid timeout poll fuel h =
      let round : Keeps K (artifact_round client sid) =
        >>=-Keeps K (client.list_artifacts sid) _ (kept.lists sid) (λ found. chosen-Keeps sid _) in
      >>=-Keeps K (artifact_round client sid) _ round
        (λ o.
          rounds-Keeps (artifact_round client sid) "app_run.result_timeout" (client.now h + timeout)
            poll fuel o round)
        h

  read_result_bytes-Keeps : (sid : String) (n : ℕ) → Keeps K (read_result_bytes client codecs sid n)
  unfolding read_result_bytes
  read_result_bytes-Keeps sid n =
      >>=-Keeps K (client.exec sid _ _) _ (kept.execs sid _ _) (λ handle.
        >>=-Keeps K (client.wait_operation handle.operation_id 120) _
          (kept.waits handle.operation_id 120)
          (λ exit_code.
            >>=-Keeps K (client.events sid handle.event_cursor n) _
              (kept.reads sid handle.event_cursor n)
              (λ events.
                >>=-Keeps K (lifted (output_of codecs.b64decode handle.operation_id events)) _
                  (λ h k. k)
                  (λ out.
                    checked-Keeps K (elim exit_code [ none ↦ false | some n ↦ eqb n 0 ] && out.1)
                      (refused "app_run.result_unreadable") _ (λ h k. k)))))

  digest-Keeps :
      (raw : List ℕ) (registered : String) → Keeps K (digest client codecs raw registered)
  unfolding digest
  digest-Keeps raw registered h k =
      elim (Bool-cases (contains ("sha256" ∷ "sha512" ∷ []) (before_colon registered))) [
        | inl p ↦ rw p k
        | inr p ↦ rw p k
      ]

  loaded-Keeps : (o : Option Json) → Keeps K (loaded client codecs o)
  loaded-Keeps none = λ h k. k
  loaded-Keeps (some null) = λ h k. k
  loaded-Keeps (some (boolean b)) = λ h k. k
  loaded-Keeps (some (number b)) = λ h k. k
  loaded-Keeps (some (string b)) = λ h k. k
  loaded-Keeps (some (array b)) = λ h k. k
  loaded-Keeps (some (object x)) =
      checked-Keeps K (codecs.conforms x) (refused "app_run.result_invalid") _ (λ h k. k)

  verified-Keeps :
      (run : AppRun) (expected : Dict String) (artifact : Artifact) (raw : List ℕ)
      → Keeps K (verified client codecs run expected artifact raw)
  unfolding verified
  verified-Keeps run expected artifact raw =
      checked-Keeps K (eqb (length raw) artifact.size_bytes)
        (refused "app_run.result_size_mismatch") _
        (>>=-Keeps K (digest client codecs raw artifact.digest) _ (digest-Keeps raw artifact.digest)
          (λ actual.
            checked-Keeps K (actual == artifact.digest) (refused "app_run.result_digest_mismatch") _
              (>>=-Keeps K (loaded client codecs (codecs.loads raw)) _
                (loaded-Keeps (codecs.loads raw))
                (λ result.
                  checked-Keeps K (same_bytes (codecs.canonical_bytes result) raw)
                    (refused "app_run.result_not_canonical") _
                    (checked-Keeps K (identifies run expected result)
                      (refused "app_run.result_identity_mismatch") _ (λ h k. k))))))

  persisted-Keeps : (o : Option String) (raw : List ℕ) → Keeps K (persisted client codecs o raw)
  persisted-Keeps none raw = λ h k. k
  persisted-Keeps (some path) raw = kept.writes path raw

  collect_only-Keeps :
      (run : AppRun) (sid : String) (o : Options) (fuel : ℕ)
      → Keeps K (collect_only client codecs run sid o fuel)
  unfolding collect_only
  collect_only-Keeps run sid o fuel =
      checked-Keeps K (ltb 0 o.timeout && ltb 0 o.poll) value_error _ (
        checked-Keeps K (ltb 0 o.max_result_bytes) value_error _ (
          >>=-Keeps K (wait_for_result_artifact client sid o.timeout o.poll fuel) _
            (wait_for_result_artifact-Keeps sid o.timeout o.poll fuel)
            (λ artifact.
              checked-Keeps K (artifact.media_type == result_media_type)
                (refused "app_run.result_media_type") _
                (checked-Keeps K (leb artifact.size_bytes o.max_result_bytes)
                  (refused "app_run.result_too_large") _
                  (>>=-Keeps K
                    (read_result_bytes client codecs sid
                      (max 100 (artifact.size_bytes / 1024 + 20)))
                    _ (read_result_bytes-Keeps sid (max 100 (artifact.size_bytes / 1024 + 20)))
                    (λ raw.
                      >>=-Keeps K (verified client codecs run o.expected_identity artifact raw) _
                        (verified-Keeps run o.expected_identity artifact raw)
                        (λ result.
                          >>=-Keeps K (persisted client codecs o.output raw) _
                            (persisted-Keeps o.output raw) (λ _ h k. k))))))))

  -- What holds of the world on whatever the client does, save a deletion, holds when a collection is
  -- over, however it ends, unless a cleanup was asked for and the result had been collected, with all
  -- its checks and its file, in a world where it still held.
  pub collect_app_run_result-Keeps :
      (run : AppRun) (sid : String) (o : Options) (fuel : ℕ) (h : H)
      → K h
      → K (collect_app_run_result client codecs run sid o fuel h).1
        ⊎ ((o.cleanup ≡ true)
            × (c : Collected) × (h1 : H) × (collect_only client codecs run sid o fuel h
                ≡ (ok c, h1))
            × IsCollected client codecs run o c
            × K h1)
  unfolding collect_app_run_result
  collect_app_run_result-Keeps run sid o fuel h k =
      elim (Answer-cases (collect_only client codecs run sid o fuel h)) [
        | inr (x, h1, s) ↦
            inl (rw s (subst K (ap (λ o. o.1) s) (collect_only-Keeps run sid o fuel h k)))
        | inl (c, h1, s) ↦
            let k1 = subst K (ap (λ o. o.1) s) (collect_only-Keeps run sid o fuel h k) in
            elim (Bool-cases o.cleanup) [
              | inl q ↦
                  inr (
                    q,
                    c,
                    h1,
                    s,
                    collect_only-IsCollected client codecs run sid o fuel h h1 c s,
                    k1,
                  )
              | inr q ↦ inl (rw (s, q) k1)
            ]
      ]
