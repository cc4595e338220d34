-- ===== src/Sdk/Verified.antt =====
-- sdks/python/barista_app_sdk/lifecycle.py: what a collected result has passed, and what a failed
-- collection leaves alone.
use Prim.Native.String.{◌++◌ as append}
use barista_apps.Prelude.{
  ℕ, ◌+◌, ◌/◌, ◌≤◌, String, true, ◌&&◌, Option, none, some, List, [], ◌∷◌, ◌≡◌, refl, sym, ◌∙◌, ap,
  subst, inl, inr, All, Mem, arith, leb, ltb, eqb, eqb_iff, max, length, ◌==◌, text_equality,
  ==_iff, contains, Bool-cases,
}
use barista_apps.Prelude.Dict.{Dict}
use barista_apps.Prelude.Result.{Result, ok, err}
use barista_apps.Prelude.Action.{pure, >>=-eq-ok, assure-eq-ok}
use barista_apps.Sdk.Json.{Json, null, boolean, number, string, array, object, Members, get}
use barista_apps.Sdk.Runs.{AppRun}
use barista_apps.Sdk.Lifecycle.{
  terminal_result_states, Artifact, Fault, refused, value_error, Client, Codecs,
  wait_for_result_artifact, result_media_type,
}
use barista_apps.Sdk.Identity.{
  HasField, is_text-eq, text_in-Mem, has_identity-HasField, identifies_parts,
}
use barista_apps.Sdk.Collect.{
  Options, Collected, before_colon, identifies, same_bytes, read_result_bytes, digest, loaded,
  verified, persisted, cleaned, collect_only, collect_app_run_result,
}

same_bytes-eq : (xs ys : List ℕ) → same_bytes xs ys ≡ true → xs ≡ ys
same_bytes-eq [] [] h = refl
same_bytes-eq [] (y ∷ ys) h = cc
same_bytes-eq (x ∷ xs) [] h = cc
same_bytes-eq (x ∷ xs) (y ∷ ys) h = ground (arith, same_bytes-eq xs ys)

pair_eq : {A S : Type 0} {a b : A} {s t : S} → Path (Result Fault A × S) (ok a, s) (ok b, t) → a ≡ b
pair_eq h = cc

refused_ne :
    {A S : Type 0} {x : Fault} {b : A} {s t : S}
    → Path (Result Fault A × S) (err x, s) (ok b, t)
    → ⊥
refused_ne h = cc

module _ {H : Type 0} (client : Client H) (codecs : Codecs) (run : AppRun) where
  -- The bytes are those of the registration and of the result, and the result is the run's.
  pub record IsVerified (expected : Dict String) (artifact : Artifact) (raw : List ℕ)
      (result : Members) : Type 0 where
    pub size : length raw ≡ artifact.size_bytes
    pub digest :
        append
          (before_colon artifact.digest)
          (append ":" (codecs.hexdigest (before_colon artifact.digest) raw))
        ≡ artifact.digest
    pub canonical : codecs.canonical_bytes result ≡ raw
    pub conforms : codecs.conforms result ≡ true
    pub run_name : get result "run" ≡ some (string run.name)
    pub app : get result "app" ≡ some (string run.app)
    pub operation : get result "operation" ≡ some (string run.operation)
    pub identity : All (HasField expected result) (
        "name" ∷ "version" ∷ "workload_digest" ∷ "manifest_digest" ∷ "source" ∷ "source_revision"
        ∷ [])
    pub state :
        (st : String) × (get result "state" ≡ some (string st))
        × Mem st ("succeeded" ∷ "failed" ∷ "cancelled" ∷ "lost_authority" ∷ [])

  loaded_conforms :
      (o : Option Json) (h h' : H) (ms : Members)
      → loaded client codecs o h ≡ (ok ms, h')
      → codecs.conforms ms ≡ true
  loaded_conforms none h h' ms e = cc
  loaded_conforms (some null) h h' ms e = cc
  loaded_conforms (some (boolean b)) h h' ms e = cc
  loaded_conforms (some (number b)) h h' ms e = cc
  loaded_conforms (some (string b)) h h' ms e = cc
  loaded_conforms (some (array b)) h h' ms e = cc
  loaded_conforms (some (object x)) h h' ms e =
      let (p, q) =
        assure-eq-ok (codecs.conforms x) (refused "app_run.result_invalid") (pure x) h e in
      ap codecs.conforms (sym (pair_eq q)) ∙ p

  digest_of :
      (raw : List ℕ) (registered actual : String) (h h' : H)
      → digest client codecs raw registered h ≡ (ok actual, h')
      → append
          (before_colon registered)
          (append ":" (codecs.hexdigest (before_colon registered) raw))
        ≡ actual
  unfolding digest
  digest_of raw registered actual h h' e =
      elim (Bool-cases (contains ("sha256" ∷ "sha512" ∷ []) (before_colon registered))) [
        | inl p ↦ pair_eq (rw p at e)
        | inr p ↦ absurd (refused_ne (rw p at e))
      ]

  verified-IsVerified :
      (expected : Dict String) (artifact : Artifact) (raw : List ℕ) (h h' : H) (result : Members)
      → verified client codecs run expected artifact raw h ≡ (ok result, h')
      → IsVerified expected artifact raw result
  unfolding verified
  verified-IsVerified expected artifact raw h h' result e =
      let (p, e1) =
        assure-eq-ok (eqb (length raw) artifact.size_bytes) (refused "app_run.result_size_mismatch")
          _ h e in
      let (actual, h1, d, e2) = >>=-eq-ok (digest client codecs raw artifact.digest) _ h e1 in
      let (q, e3) =
        assure-eq-ok (actual == artifact.digest) (refused "app_run.result_digest_mismatch") _ h1
          e2 in
      let (found, h2, l, e4) = >>=-eq-ok (loaded client codecs (codecs.loads raw)) _ h1 e3 in
      let (r, e5) =
        assure-eq-ok (same_bytes (codecs.canonical_bytes found) raw)
          (refused "app_run.result_not_canonical") _ h2 e4 in
      let (i, e6) =
        assure-eq-ok (identifies run expected found) (refused "app_run.result_identity_mismatch") _
          h2 e5 in
      let parts = identifies_parts run expected found i in
      subst (IsVerified expected artifact raw) (pair_eq e6) (record {
        size = (eqb_iff (length raw) artifact.size_bytes).0 p;
        digest = digest_of raw artifact.digest actual h h1 d ∙ (==_iff actual artifact.digest).0 q;
        canonical = same_bytes-eq (codecs.canonical_bytes found) raw r;
        conforms = loaded_conforms (codecs.loads raw) h1 h2 found l;
        run_name = is_text-eq (get found "run") run.name parts.0;
        app = is_text-eq (get found "app") run.app parts.1;
        operation = is_text-eq (get found "operation") run.operation parts.2;
        identity = has_identity-HasField expected found parts.3;
        state = text_in-Mem terminal_result_states (get found "state") parts.4;
      })

  -- What is answered to a caller that asked for a collection by these options.
  pub record IsCollected (o : Options) (c : Collected) : Type 0 where
    pub checked : IsVerified o.expected_identity c.artifact c.bytes c.result
    pub within : length c.bytes ≤ o.max_result_bytes
    pub media_type : c.artifact.media_type ≡ result_media_type
    pub output_path : c.output_path ≡ o.output

  pub collect_only-IsCollected :
      (sid : String) (o : Options) (fuel : ℕ) (h h' : H) (c : Collected)
      → collect_only client codecs run sid o fuel h ≡ (ok c, h')
      → IsCollected o c
  unfolding collect_only
  collect_only-IsCollected sid o fuel h h' c e =
      let (p, e1) = assure-eq-ok (ltb 0 o.timeout && ltb 0 o.poll) value_error _ h e in
      let (q, e2) = assure-eq-ok (ltb 0 o.max_result_bytes) value_error _ h e1 in
      let (artifact, h1, w, e3) =
        >>=-eq-ok (wait_for_result_artifact client sid o.timeout o.poll fuel) _ h e2 in
      let (m, e4) =
        assure-eq-ok (artifact.media_type == result_media_type)
          (refused "app_run.result_media_type") _ h1 e3 in
      let (n, e5) =
        assure-eq-ok (leb artifact.size_bytes o.max_result_bytes)
          (refused "app_run.result_too_large") _ h1 e4 in
      let (raw, h2, b, e6) =
        >>=-eq-ok (read_result_bytes client codecs sid (max 100 (artifact.size_bytes / 1024 + 20)))
          _ h1 e5 in
      let (result, h3, v, e7) =
        >>=-eq-ok (verified client codecs run o.expected_identity artifact raw) _ h2 e6 in
      let (tt, h4, u, e8) = >>=-eq-ok (persisted client codecs o.output raw) _ h3 e7 in
      let checked = verified-IsVerified o.expected_identity artifact raw h2 h3 result v in
      subst (IsCollected o) (pair_eq e8) (record {
        checked = checked;
        within = ground (arith, checked.size, n);
        media_type = (==_iff artifact.media_type result_media_type).0 m;
        output_path = refl;
      })

  -- A result that is answered has the size and the digest of its registration, is the canonical form
  -- of a document that conforms to the schema, has the name, app and operation of the run, has in its
  -- identity each field that was asked for, is in one of the four final states, is within the limit,
  -- and is of the media type; the session is reported as deleted exactly when that
  -- was asked for.
  pub collect_app_run_result-IsCollected :
      (sid : String) (o : Options) (fuel : ℕ) (h h' : H) (c : Collected)
      → collect_app_run_result client codecs run sid o fuel h ≡ (ok c, h')
      → IsCollected o c × c.session_deleted ≡ o.cleanup
  unfolding collect_app_run_result
  collect_app_run_result-IsCollected sid o fuel h h' c e =
      let (c1, h1, p, e1) = >>=-eq-ok (collect_only client codecs run sid o fuel) _ h e in
      let (tt, h2, q, e2) =
        >>=-eq-ok
          (cleaned client codecs o.cleanup sid
            (append "app-run-" (append (codecs.run_digest run) "-cleanup")) o.timeout)
          _ h1 e1 in
      let i = collect_only-IsCollected sid o fuel h h1 c1 p in
      subst (λ c. IsCollected o c × c.session_deleted ≡ o.cleanup) (pair_eq e2)
        (
          record {
            checked = i.checked;
            within = i.within;
            media_type = i.media_type;
            output_path = i.output_path;
          },
          refl,
        )
