-- ===== src/Factory/Credential.antt =====
-- apps/factory/barista_app_factory/credential.py: when the coordinator's grant is refreshed, and
-- when its authority is lost. Times and lifetimes are whole seconds, margins whole tenths of a
-- second, and a comparison with `expires_at - now` is one with the deadline alone on its left.
use barista_apps.Prelude.{
  ℕ, suc, ◌+◌, ◌-◌, ◌*◌, String, Bool, true, false, not, ◌&&◌, Option, none, some, min, max, leb,
  ltb, if◌then◌else◌, eqb,
}
use barista_apps.Factory.State.{CredentialStatus}

-- In tenths of a second: a fifth of the lifetime, but a minute at least and half of it at most.
unfoldable pub refresh_margin_seconds : ℕ → ℕ
refresh_margin_seconds lifetime = min (max (lifetime * 2) 600) (lifetime * 5)

pub record Keeper : Type 0 where
  pub margin_override : Option ℕ
  pub active : Bool
  pub inactive_reason : Option String
  pub lifetime_seconds : Option ℕ
  pub expires_at : Option ℕ
  pub refreshes : ℕ
  pub lost_authority : Option String

unfoldable pub margin_seconds : Keeper → ℕ
unfolding refresh_margin_seconds
margin_seconds k = elim k.margin_override [
  | some m ↦ m
  | none ↦ elim k.lifetime_seconds [
    | none ↦ 600
    | some l ↦ if eqb l 0 then 600 else refresh_margin_seconds l
  ]
]

-- `remaining <= margin`, with `remaining = expires_at - now`.
unfoldable pub due : ℕ → Keeper → Bool
unfolding margin_seconds
due now k = elim k.expires_at [ none ↦ false | some t ↦ leb (t * 10) (now * 10 + margin_seconds k) ]

-- `remaining <= 0`
unfoldable pub lapsed : ℕ → Keeper → Bool
lapsed now k = elim k.expires_at [ none ↦ false | some t ↦ leb t now ]

unfoldable pub longer : Option ℕ → ℕ → Bool
longer none observed = true
longer (some l) observed = ltb l observed

-- `_adopt`, of a grant with the time at which it expires.
unfoldable pub adopt : ℕ → Option ℕ → Keeper → Keeper
unfolding longer
adopt now expires k = record k {
  expires_at = expires;
  refreshes = suc k.refreshes;
  lifetime_seconds = elim expires [
    | none ↦ k.lifetime_seconds
    | some t ↦
        if ltb now t && longer k.lifetime_seconds (t - now)
        then some (t - now)
        else k.lifetime_seconds
  ];
}

-- The client's calls, which are requests to the provider.
pub data GrantFault : Type 0 where
  authentication host_api : String → GrantFault

pub data Refreshed : Type 0 where
  granted : Option ℕ → Refreshed
  refused : GrantFault → Refreshed

pub data Supports : Type 0 where
  answered : Bool → Supports
  unreadable : String → Supports

-- How `ensure_fresh` ends. The message of a lapse formats the lifetime, which raises a `TypeError`
-- where none was observed.
pub data Fresh : Type 0 where
  kept refreshed : Fresh
  lapsed_grant type_error : Fresh
  refused_grant : GrantFault → Fresh

abbrev pub lapse : Option ℕ → Fresh
lapse none = type_error
lapse (some _) = lapsed_grant

module _ {H : Type 0} (supports : H → Supports) (refresh_grant : H → Refreshed × H) where
  unfoldable pub established : Refreshed → ℕ → Keeper → Bool × Keeper
  unfolding adopt
  established (granted t) now k = (true, record (adopt now t k) { active = true })
  established (refused (authentication e)) now k = (false, record k { inactive_reason = some e })
  established (refused (host_api e)) now k = (false, record k { inactive_reason = some e })

  -- The texts of the reasons are those of the faults.
  unfoldable pub establish : ℕ → Keeper → H → Bool × (Keeper × H)
  unfolding established
  establish now k h = elim (supports h) [
    | unreadable e ↦ (false, (record k { inactive_reason = some e }, h))
    | answered false ↦ (false, (record k { inactive_reason = some "grants.delegated" }, h))
    | answered true ↦
        let (r, h') = refresh_grant h in let (b, k') = established r now k in (b, (k', h'))
  ]

  unfoldable pub refreshed_with : Refreshed → ℕ → Keeper → Fresh × Keeper
  unfolding adopt
  refreshed_with (granted t) now k = (refreshed, adopt now t k)
  refreshed_with (refused e) now k = (refused_grant e, record k { active = false })

  unfoldable pub ensure_fresh : ℕ → Keeper → H → Fresh × (Keeper × H)
  unfolding lapsed due refreshed_with
  ensure_fresh now k h =
      if not k.active
      then (kept, (k, h))
      else if lapsed now k
      then (lapse k.lifetime_seconds, (record k { active = false }, h))
      else if not (due now k)
      then (kept, (k, h))
      else let (r, h') = refresh_grant h in let (f, k') = refreshed_with r now k in (f, (k', h'))

unfoldable pub status : Keeper → CredentialStatus
unfolding margin_seconds
status k = record {
  active = k.active;
  refreshes = k.refreshes;
  lifetime_seconds = elim k.lifetime_seconds [
    | none ↦ none
    | some l ↦ if eqb l 0 then none else some l
  ];
  margin_seconds = if k.active then some (margin_seconds k) else none;
  inactive_reason = k.inactive_reason;
}
