-- ===== src/Demo/Ready.antt =====
-- integrations/github-factory-demo/barista_github_factory_demo/store.py: a feature is ready only when
-- the features that it depends on are merged.
use barista_apps.Prelude.{
  ℕ, String, Bool, true, false, not, ◌&&◌, List, [], ◌∷◌, ◌==◌, text_equality, ==_iff, any, all,
  keep, leb, All, All_map, all_iff, ◌≡◌, refl, sym, ap, ◌∙◌, ◌⊎◌, inl, inr, arith, Bool-cases,
}
use barista_apps.Prelude.Tables.{place, order_by}
use barista_apps.Demo.Rows.{Feature}
use barista_apps.Demo.Store.{Store}
use barista_apps.Demo.Features.{of_program, features_of, is_none, is_merged, ready_features}

abbrev pub Within : Feature → List Feature → Type 0
Within g [] = ⊥
Within g (f ∷ fs) = (f ≡ g) ⊎ Within g fs

Within-keep :
    (p : Feature → Bool) (g : Feature) (fs : List Feature)
    → Within g (keep p fs)
    → Within g fs × (p g ≡ true)
Within-keep p g [] h = absurd h
Within-keep p g (f ∷ fs) h = elim (Bool-cases (p f)) [
  | inr e ↦ let (w, q) = Within-keep p g fs (rw e at h) in (inr w, q)
  | inl e ↦
      let here : (f ≡ g) ⊎ Within g (keep p fs) = rw e at h in
      elim here [
        | inl m ↦ (inl m, ap p (sym m) ∙ e)
        | inr w ↦ let (v, q) = Within-keep p g fs w in (inr v, q)
      ]
]

Within-place :
    (n : Feature → ℕ) (g x : Feature) (fs : List Feature)
    → Within g (place n x fs)
    → (x ≡ g) ⊎ Within g fs
unfolding place
Within-place n g x [] h = h
Within-place n g x (f ∷ fs) h = elim (Bool-cases (leb (n x) (n f))) [
  | inl e ↦ rw e at h
  | inr e ↦
      let there : (f ≡ g) ⊎ Within g (place n x fs) = rw e at h in
      elim there [
        | inl m ↦ inr (inl m)
        | inr w ↦ elim (Within-place n g x fs w) [ inl m ↦ inl m | inr v ↦ inr (inr v) ]
      ]
]

Within-order_by :
    (n : Feature → ℕ) (g : Feature) (fs : List Feature) → Within g (order_by n fs) → Within g fs
unfolding order_by
Within-order_by n g [] h = h
Within-order_by n g (f ∷ fs) h = elim (Within-place n g f (order_by n fs) h) [
  | inl m ↦ inl m
  | inr w ↦ inr (Within-order_by n g fs w)
]

Within-features_of :
    (pid : String) (s : Store) (g : Feature)
    → Within g (features_of pid s)
    → Within g s.features × (g.program_id ≡ pid)
unfolding features_of
Within-features_of pid s g h =
    let (w, q) =
      Within-keep (of_program pid) g s.features
        (Within-order_by (λ f. f.ordinal) g (keep (of_program pid) s.features) h) in
    (w, (==_iff g.program_id pid).0 q)

merged_row :
    (fs : List Feature) (fid : String)
    → is_merged fs fid ≡ true
    → (g : Feature) × Within g fs × (g.feature_id ≡ fid) × (g.status ≡ "merged")
unfolding is_merged
merged_row [] fid h = cc
merged_row (f ∷ fs) fid h = elim (Bool-cases (any (λ (g : Feature). g.feature_id == fid) fs)) [
  | inl e ↦ let (g, w, i, m) = merged_row fs fid (rw e at h) in (g, inr w, i, m)
  | inr e ↦ (
    f,
    inl refl,
    (==_iff f.feature_id fid).0 (ground arith),
    (==_iff f.status "merged").0 (ground arith),
  )
]

-- A row of the table that a feature of the program needs is merged.
abbrev pub Merged : String → Store → String → Type 0
Merged pid s fid =
    (g : Feature) × Within g s.features
    × (g.program_id ≡ pid)
    × (g.feature_id ≡ fid)
    × (g.status ≡ "merged")

-- A feature that is offered for work is one of the program, is blocked and has an issue, and each
-- feature that it depends on is a merged one of the program.
pub ready_features-AreMerged :
    (pid : String) (s : Store) (f : Feature)
    → Within f (ready_features pid s)
    → Within f s.features
      × (f.program_id ≡ pid)
      × (f.status ≡ "blocked")
      × (is_none f.issue_uri ≡ false)
      × All (Merged pid s) f.dependencies
unfolding ready_features
ready_features-AreMerged pid s f h =
    let rows = features_of pid s in
    let (w, q) =
      Within-keep
        (λ f.
          f.status == "blocked"
          && (not (is_none f.issue_uri) && all (is_merged rows) f.dependencies))
        f rows h in
    let (t, p) = Within-features_of pid s f w in
    (
      t,
      p,
      (==_iff f.status "blocked").0 (ground arith),
      ground arith,
      All_map
          (λ fid m.
            let (g, v, i, o) = merged_row rows fid m in
            let (u, r) = Within-features_of pid s g v in (g, u, r, i, o))
          f.dependencies ((all_iff (is_merged rows) f.dependencies).0 (ground arith)),
    )
