-- ===== src/Factory/Margin.antt =====
-- apps/factory/barista_app_factory/credential.py: the margin, and how a refresh ends.
use barista_apps.Prelude.{
  ℕ, ◌*◌, ◌≤◌, true, false, Option, ◌≡◌, refl, ◌⊎◌, inl, inr, arith, Bool-cases, subst, sym, none,
  some,
}
use barista_apps.Factory.Credential.{
  Supports, GrantFault, Keeper, refresh_margin_seconds, due, lapsed, lapse, Fresh, kept, refreshed,
  lapsed_grant, type_error, refused_grant, Refreshed, granted, refused, ensure_fresh,
  refreshed_with,
}

-- In tenths of a second, the margin of a lifetime of at least a second is positive and at most half
-- the lifetime; of two minutes or more it is at least a minute, and of five or more it is a fifth
-- of the lifetime.
pub refresh_margin_seconds-bounds :
    (l : ℕ)
    → (refresh_margin_seconds l ≤ l * 5)
      × (1 ≤ l → 1 ≤ refresh_margin_seconds l)
      × (120 ≤ l → 600 ≤ refresh_margin_seconds l)
      × (300 ≤ l → refresh_margin_seconds l ≡ l * 2)
unfolding refresh_margin_seconds
refresh_margin_seconds-bounds l =
    (omega arith, λ h. omega arith, λ h. omega arith, λ h. omega arith)

Refreshed-cases :
    {H : Type 0} (o : Refreshed × H)
    → ((t : Option ℕ) × (h : H) × (o ≡ (granted t, h)))
      ⊎ ((f : GrantFault) × (h : H) × (o ≡ (refused f, h)))
Refreshed-cases (granted t, h) = inl (t, h, refl)
Refreshed-cases (refused f, h) = inr (f, h, refl)

true_ne : true ≡ false → ⊥
true_ne e = cc

module _ {H : Type 0} (supports : H → Supports) (refresh_grant : H → Refreshed × H) where
  -- How a check of the credential ends: it is inactive and nothing changed, or it was and stays
  -- outside the margin, or authority is lost and the keeper inactive, without a request where the
  -- grant had lapsed, which is raised as a type error where no lifetime was observed, or the grant
  -- was replaced by one request.
  abbrev pub IsChecked : ℕ → Keeper → H → Fresh → Keeper → H → Type 0
  IsChecked now k h kept k' h' = (k' ≡ k) × (h' ≡ h) × (k.active ≡ true → due now k ≡ false)
  IsChecked now k h lapsed_grant k' h' =
      (h' ≡ h)
      × (lapsed now k ≡ true)
      × (k'.active ≡ false)
      × ((l : ℕ) × (k.lifetime_seconds ≡ some l))
  IsChecked now k h type_error k' h' =
      (h' ≡ h) × (lapsed now k ≡ true) × (k'.active ≡ false) × (k.lifetime_seconds ≡ none)
  IsChecked now k h (refused_grant e) k' h' =
      (lapsed now k ≡ false)
      × (due now k ≡ true)
      × (refresh_grant h ≡ (refused e, h'))
      × (k'.active ≡ false)
  IsChecked now k h refreshed k' h' =
      (lapsed now k ≡ false)
      × (due now k ≡ true)
      × (k'.active ≡ true)
      × ((t : Option ℕ) × (refresh_grant h ≡ (granted t, h')) × (k'.expires_at ≡ t))

  lapse-IsChecked :
      (now : ℕ) (k : Keeper) (h : H)
      → lapsed now k ≡ true
      → (o : Option ℕ) → k.lifetime_seconds ≡ o
      → IsChecked now k h (lapse o) (record k { active = false }) h
  lapse-IsChecked now k h q none l = (refl, q, refl, l)
  lapse-IsChecked now k h q (some n) l = (refl, q, refl, (n, l))

  -- Every check of the credential ends in one of these ways. In particular a lapsed grant is never
  -- sent for a refresh, and a keeper that is still active was outside the margin or has a new grant.
  pub ensure_fresh-IsChecked :
      (now : ℕ) (k : Keeper) (h : H)
      → IsChecked now k h
          (ensure_fresh supports refresh_grant now k h).0
          (ensure_fresh supports refresh_grant now k h).1.0
          (ensure_fresh supports refresh_grant now k h).1.1
  unfolding ensure_fresh refreshed_with
  ensure_fresh-IsChecked now k h = elim (Bool-cases k.active) [
    | inr p ↦ rw p (refl, refl, λ q. cc)
    | inl p ↦ elim (Bool-cases (lapsed now k)) [
      | inl q ↦
          let e : ensure_fresh supports refresh_grant now k h
              ≡ (lapse k.lifetime_seconds, (record k { active = false }, h)) =
            ground (arith, p, q) in
          subst (λ r. IsChecked now k h r.0 r.1.0 r.1.1) (sym e)
            (lapse-IsChecked now k h q k.lifetime_seconds refl)
      | inr q ↦ elim (Bool-cases (due now k)) [
        | inr r ↦ rw (p, q, r) (refl, refl, λ _. r)
        | inl r ↦ elim (Refreshed-cases (refresh_grant h)) [
          | inl (t, h', e) ↦ rw (p, q, r, e) (q, r, refl, (t, e, refl))
          | inr (f, h', e) ↦ rw (p, q, r, e) (q, r, e, refl)
        ]
      ]
    ]
  ]
