-- ===== src/Manifest/Duplicates.antt =====
-- The loop that looks for repeated grants finds none exactly when there is none.
use barista_apps.Prelude.{
  String, false, List, [], ◌∷◌, ◌++◌, ◌≡◌, ◌≢◌, refl, ◌↔◌, contains, All, Nodup, arith, ==_iff,
}
use barista_apps.Manifest.Grants.{Grant, grant_equality, to_string}
use barista_apps.Manifest.{Rule, dupes_from, report, check_no_duplicate_scope}

dupes_from-ne-nil :
    (seen : List Grant) (d : String) (dupes : List String) (gs : List Grant)
    → dupes_from seen (d ∷ dupes) gs ≢ []
unfolding dupes_from
dupes_from-ne-nil seen d dupes [] h = cc
dupes_from-ne-nil seen d dupes (g ∷ gs) h = ground (
  arith,
  dupes_from-ne-nil (g ∷ seen) d dupes gs,
  dupes_from-ne-nil (g ∷ seen) d (dupes ++ to_string g ∷ []) gs,
)

-- No grant is in `seen` or stands earlier in the list.
abbrev Fresh : List Grant → List Grant → Type 0
Fresh seen [] = Unit
Fresh seen (g ∷ gs) = (contains seen g ≡ false) × Fresh (g ∷ seen) gs

dupes_from-eq-nil : (seen gs : List Grant) → (dupes_from seen [] gs ≡ []) ↔ Fresh seen gs
unfolding dupes_from
dupes_from-eq-nil seen [] = (λ _. tt, λ _. refl)
dupes_from-eq-nil seen (g ∷ gs) = (
  λ h. (
    ground (arith, dupes_from-ne-nil (g ∷ seen) (to_string g) [] gs),
    (dupes_from-eq-nil (g ∷ seen) gs).0
        (ground (arith, dupes_from-ne-nil (g ∷ seen) (to_string g) [] gs)),
  ),
  λ (new, rest). ground (arith, (dupes_from-eq-nil (g ∷ seen) gs).1 rest),
)

abbrev Apart : List Grant → List Grant → Type 0
Apart seen gs = All (λ g. contains seen g ≡ false) gs

Apart-cons :
    (h : Grant) (seen gs : List Grant)
    → Apart (h ∷ seen) gs ↔ (contains gs h ≡ false) × Apart seen gs
Apart-cons h seen [] = (λ _. (refl, tt), λ _. tt)
Apart-cons h seen (g ∷ gs) = (
  λ (new, rest).
      let (absent, old) = (Apart-cons h seen gs).0 rest in
      (ground (arith, ==_iff h g, ==_iff g h), (ground arith, old)),
  λ (absent, apart).
      (ground (arith, ==_iff h g, ==_iff g h), (Apart-cons h seen gs).1 (ground arith, apart.1)),
)

Fresh-iff : (seen gs : List Grant) → Fresh seen gs ↔ Apart seen gs × Nodup gs
Fresh-iff seen [] = (λ _. (tt, tt), λ _. tt)
Fresh-iff seen (g ∷ gs) = (
  λ (new, rest).
      let (apart, once) = (Fresh-iff (g ∷ seen) gs).0 rest in
      let (absent, old) = (Apart-cons g seen gs).0 apart in ((new, old), (absent, once)),
  λ (apart, once).
      (apart.0, (Fresh-iff (g ∷ seen) gs).1 ((Apart-cons g seen gs).1 (once.0, apart.1), once.1)),
)

Apart-nil : (gs : List Grant) → Apart [] gs
Apart-nil [] = tt
Apart-nil (g ∷ gs) = (refl, Apart-nil gs)

pub report-eq-nil : (r : Rule) (xs : List String) → (report r xs ≡ []) ↔ (xs ≡ [])
unfolding report
report-eq-nil r [] = (λ _. refl, λ _. refl)
report-eq-nil r (x ∷ xs) = (λ h. cc, λ h. cc)

pub check_no_duplicate_scope-eq-nil :
    (gs : List Grant) → (check_no_duplicate_scope gs ≡ []) ↔ Nodup gs
unfolding check_no_duplicate_scope
check_no_duplicate_scope-eq-nil gs = (
  λ h. ((Fresh-iff [] gs).0 ((dupes_from-eq-nil [] gs).0 ((report-eq-nil _ _).0 h))).1,
  λ once.
      (report-eq-nil _ _).1
        ((dupes_from-eq-nil [] gs).1 ((Fresh-iff [] gs).1 (Apart-nil gs, once))),
)
