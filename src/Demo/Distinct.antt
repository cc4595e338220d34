-- ===== src/Demo/Distinct.antt =====
-- integrations/github-factory-demo/barista_github_factory_demo/store.py: rows of deliveries that are
-- no two of one identifier or issue, and are within the limits of answers.
use barista_apps.Prelude.{
  ℕ, ◌≤◌, String, Bool, false, ◌||◌, none, List, [], ◌∷◌, ◌++◌, text_equality, number_equality,
  ==_iff, any, length, All, ◌≡◌, refl, ◌∙◌, inl, inr, arith, Bool-cases, Option-cases,
}
use barista_apps.Prelude.Tables.{fetch, update}
use barista_apps.Demo.Rows.{Delivery}
use barista_apps.Demo.Deliveries.{has_id, is_issue, conflict}

-- Two rows of one identifier or of one issue.
abbrev clashes : Delivery → Delivery → Bool
clashes d e = has_id d.delivery_id e || is_issue d.repository d.issue_number e

abbrev pub Distinct : List Delivery → Type 0
Distinct [] = Unit
Distinct (d ∷ ds) = (any (clashes d) ds ≡ false) × Distinct ds

abbrev pub IsBounded : Delivery → Type 0
IsBounded d = d.attempt ≤ 100 × length d.answer_history ≤ 20

pub record IsValid (ds : List Delivery) : Type 0 where
  pub distinct : Distinct ds
  pub bounded : All IsBounded ds

clash-append :
    (d e : Delivery) (ds : List Delivery)
    → any (clashes d) ds ≡ false
    → clashes d e ≡ false
    → any (clashes d) (ds ++ e ∷ []) ≡ false
clash-append d e [] h k = ground arith
clash-append d e (x ∷ ds) h k = ground (arith, clash-append d e ds)

clashes_sym : (d e : Delivery) → clashes d e ≡ clashes e d
clashes_sym d e = ground (
  arith,
  ==_iff d.delivery_id e.delivery_id,
  ==_iff e.delivery_id d.delivery_id,
  ==_iff d.repository e.repository,
  ==_iff e.repository d.repository,
  ==_iff d.issue_number e.issue_number,
  ==_iff e.issue_number d.issue_number,
)

pub Distinct-append :
    (ds : List Delivery) (e : Delivery)
    → Distinct ds
    → any (clashes e) ds ≡ false
    → Distinct (ds ++ e ∷ [])
Distinct-append [] e h k = (refl, tt)
Distinct-append (d ∷ ds) e h k = (
  clash-append d e ds h.0 (clashes_sym d e ∙ ground arith),
  Distinct-append ds e h.1 (ground arith),
)

fetch-eq-none : (p : Delivery → Bool) (ds : List Delivery) → fetch p ds ≡ none → any p ds ≡ false
unfolding fetch
fetch-eq-none p [] h = refl
fetch-eq-none p (d ∷ ds) h = ground (arith, fetch-eq-none p ds)

any_or :
    (p q : Delivery → Bool) (ds : List Delivery)
    → any p ds ≡ false
    → any q ds ≡ false
    → any (λ d. p d || q d) ds ≡ false
any_or p q [] h k = refl
any_or p q (d ∷ ds) h k = ground (arith, any_or p q ds)

-- A row that no other conflicts with.
pub free :
    (id repository : String) (number : ℕ) (ds : List Delivery)
    → conflict id repository number ds ≡ none
    → any (λ e. has_id id e || is_issue repository number e) ds ≡ false
unfolding conflict
free id repository number ds h = elim (Option-cases (fetch (has_id id) ds)) [
  | inl p ↦
      any_or (has_id id) (is_issue repository number) ds (fetch-eq-none _ ds p)
        (fetch-eq-none _ ds (rw (conflict, p) at h))
  | inr (d, p) ↦ cc
]

module _ (p : Delivery → Bool) (f : Delivery → Delivery) where
  -- An update keeps the identity of a row.
  abbrev pub SameRow : Type 0
  SameRow =
      (d : Delivery)
      → ((f d).delivery_id ≡ d.delivery_id)
        × ((f d).repository ≡ d.repository)
        × ((f d).issue_number ≡ d.issue_number)

  any-update :
      SameRow
      → (d : Delivery) (ds : List Delivery) → any (clashes d) (update p f ds) ≡ any (clashes d) ds
  unfolding update
  any-update h d [] = refl
  any-update h d (x ∷ ds) = elim (Bool-cases (p x)) [
    | inl e ↦ rw (e, any-update h d ds, (h x).0, (h x).1, (h x).2) refl
    | inr e ↦ rw (e, any-update h d ds) refl
  ]

  Distinct-update : SameRow → (ds : List Delivery) → Distinct ds → Distinct (update p f ds)
  unfolding update
  Distinct-update h [] k = tt
  Distinct-update h (x ∷ ds) k = elim (Bool-cases (p x)) [
    | inl e ↦
        rw (e, any-update h (f x) ds, (h x).0, (h x).1, (h x).2) (k.0, Distinct-update h ds k.1)
    | inr e ↦ rw (e, any-update h x ds) (k.0, Distinct-update h ds k.1)
  ]

  All-update :
      ((d : Delivery) → IsBounded d → IsBounded (f d))
      → (ds : List Delivery) → All IsBounded ds
      → All IsBounded (update p f ds)
  unfolding update
  All-update h [] k = tt
  All-update h (x ∷ ds) k = elim (Bool-cases (p x)) [
    | inl e ↦ rw e (h x k.0, All-update h ds k.1)
    | inr e ↦ rw e (k.0, All-update h ds k.1)
  ]

  pub update-IsValid :
      SameRow
      → ((d : Delivery) → IsBounded d → IsBounded (f d))
      → (ds : List Delivery) → IsValid ds
      → IsValid (update p f ds)
  update-IsValid h b ds k = record {
    distinct = Distinct-update h ds k.distinct;
    bounded = All-update b ds k.bounded;
  }
