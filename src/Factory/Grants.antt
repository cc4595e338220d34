-- ===== src/Factory/Grants.antt =====
-- apps/factory/barista_app_factory/grants.py: what a worker may do and which secrets it may resolve.
use Prim.Native.String.{◌++◌ as append}
use barista_apps.Prelude.{String, Bool, Option, none, some, List, [], ◌∷◌, ◌||◌, if◌then◌else◌}
use text.Mathlib.Text.{starts_with}
use barista_apps.Prelude.Dict.{Dict, assign}
use barista_apps.Prelude.Result.{Result, ok, err}
use barista_apps.Mission.{Permissions, SecretRef, Egress}

pub record WorkerGrant : Type 0 where
  pub actions : List String
  pub secret_refs : Dict String
  pub egress : Egress

abbrev pub worker_actions : List String
worker_actions = "session.exec" ∷ "session.events" ∷ "artifact.write" ∷ []

-- `{s["name"]: s["ref"] for s in secrets}`
unfoldable pub refs_from : Dict String → List SecretRef → Dict String
refs_from d [] = d
refs_from d (s ∷ ss) = refs_from (assign d s.name s.ref) ss

unfoldable pub is_reference : String → Bool
is_reference r = starts_with r "secret://" || starts_with r "grant://" || starts_with r "ref://"

-- The `ValueError` of a secret that is no reference.
pub data ValueError : Type 0 where
  raw_secret : String → ValueError

-- The first value that is no reference.
unfoldable pub first_raw : Dict String → Option String
unfolding is_reference
first_raw [] = none
first_raw ((_, r) ∷ d) = if is_reference r then first_raw d else some r

unfoldable pub derive_worker_grant : Permissions → Result ValueError WorkerGrant
unfolding refs_from first_raw
derive_worker_grant p =
    let refs = refs_from [] (elim p.secrets [ none ↦ [] | some ss ↦ ss ]) in
    elim (first_raw refs) [
      | some r ↦ err (raw_secret r)
      | none ↦ ok (record { actions = worker_actions; secret_refs = refs; egress = p.egress })
    ]

-- `WorkerGrant.env`: the names, each with a suffix, and where its secret is resolved.
unfoldable pub env_from : Dict String → Dict String → Dict String
env_from d [] = d
env_from d ((name, ref) ∷ refs) = env_from (assign d (append name "_REF") ref) refs

unfoldable pub env : WorkerGrant → Dict String
unfolding env_from
env g = env_from [] g.secret_refs
