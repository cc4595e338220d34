-- ===== src/Factory/Plan/Accepted.antt =====
-- apps/factory/barista_app_factory/product_program.py: what an entry that was parsed is.
use barista_apps.Prelude.{
  ◌≤◌, String, Bool, true, false, not, ◌&&◌, Option, none, some, List, [], ◌∷◌, text_equality,
  contains, map, length, leb, All, Nodup, ◌≡◌, subst, inl, inr, arith, Bool-cases,
}
use barista_apps.Prelude.Result.{Result, ok, err, guard, >>=-eq-ok, >>-eq-ok, guard-eq-ok}
use barista_apps.Sdk.Json.{
  Json, null, boolean, number, string, array, object, Items, nil, item, Members, get,
}
use barista_apps.Factory.Plan.{
  PlanError, entry_fields, entry, PlannedFeature, exactly, entry_fields_of, is_feature_id, is_text,
  string_where, strings, strings_where, has_no_repetition, parse_feature,
}

pub ok_eq : {A : Type 0} {a b : A} → Path (Result PlanError A) (ok a) (ok b) → a ≡ b
ok_eq h = cc

pub refused : {A : Type 0} {e : PlanError} {a : A} → Path (Result PlanError A) (err e) (ok a) → ⊥
refused h = cc

pub string_where-eq-ok :
    (e : PlanError) (p : String → Bool) (v : Option Json) (s : String)
    → string_where e p v ≡ ok s
    → p s ≡ true
unfolding string_where
string_where-eq-ok e p none s h = cc
string_where-eq-ok e p (some null) s h = cc
string_where-eq-ok e p (some (boolean b)) s h = cc
string_where-eq-ok e p (some (number n)) s h = cc
string_where-eq-ok e p (some (array vs)) s h = cc
string_where-eq-ok e p (some (object ms)) s h = cc
string_where-eq-ok e p (some (string t)) s h = elim (Bool-cases (p t)) [
  | inl q ↦ subst (λ s. p s ≡ true) (ok_eq (rw (string_where, q) at h)) q
  | inr q ↦ absurd (refused (rw (string_where, q) at h))
]

strings-eq-ok :
    (e : PlanError) (p : String → Bool) (vs : Items) (ss : List String)
    → strings e p vs ≡ ok ss
    → All (λ s. p s ≡ true) ss
unfolding strings
strings-eq-ok e p nil ss h = subst (λ ss. All (λ s. p s ≡ true) ss) (ok_eq h) tt
strings-eq-ok e p (item v vs) ss h =
    let (s, a, h1) = >>=-eq-ok (string_where e p (some v)) _ h in
    let (rest, b, h2) = >>=-eq-ok (strings e p vs) _ h1 in
    subst (λ ss. All (λ s. p s ≡ true) ss) (ok_eq h2)
      (string_where-eq-ok e p (some v) s a, strings-eq-ok e p vs rest b)

strings_where-eq-ok :
    (e : PlanError) (p : String → Bool) (v : Option Json) (ss : List String)
    → strings_where e p v ≡ ok ss
    → All (λ s. p s ≡ true) ss
unfolding strings_where
strings_where-eq-ok e p none ss h = cc
strings_where-eq-ok e p (some null) ss h = cc
strings_where-eq-ok e p (some (boolean b)) ss h = cc
strings_where-eq-ok e p (some (number n)) ss h = cc
strings_where-eq-ok e p (some (string t)) ss h = cc
strings_where-eq-ok e p (some (object ms)) ss h = cc
strings_where-eq-ok e p (some (array vs)) ss h = strings-eq-ok e p vs ss h

Nodup-has_no_repetition : (xs : List String) → has_no_repetition xs ≡ true → Nodup xs
unfolding has_no_repetition
Nodup-has_no_repetition [] h = tt
Nodup-has_no_repetition (x ∷ xs) h = (ground arith, Nodup-has_no_repetition xs (ground arith))

-- An entry within its bounds.
pub record IsFeature (f : PlannedFeature) : Type 0 where
  pub id : is_feature_id f.id ≡ true
  pub title : is_text 200 f.title ≡ true
  pub summary : is_text 4000 f.summary ≡ true
  pub criteria : All (λ c. is_text 1000 c ≡ true) f.acceptance_criteria
  pub criteria_from : 1 ≤ length f.acceptance_criteria
  pub criteria_to : length f.acceptance_criteria ≤ 12
  pub dependencies : Nodup f.dependencies
  pub dependencies_to : length f.dependencies ≤ 15

pub parse_feature-IsFeature :
    (seen : List String) (ms : Members) (f : PlannedFeature)
    → parse_feature seen ms ≡ ok f
    → IsFeature f × (contains seen f.id ≡ false)
unfolding parse_feature
parse_feature-IsFeature seen ms f h =
    let (_, h1) = >>-eq-ok (guard (exactly entry_fields_of ms) entry_fields) _ h in
    let (id, a, h2) = >>=-eq-ok (string_where entry is_feature_id (get ms "id")) _ h1 in
    let (b, h3) = >>-eq-ok (guard (not (contains seen id)) entry) _ h2 in
    let (title, c, h4) = >>=-eq-ok (string_where entry (is_text 200) (get ms "title")) _ h3 in
    let (summary, d, h5) = >>=-eq-ok (string_where entry (is_text 4000) (get ms "summary")) _ h4 in
    let (criteria, e, h6) =
      >>=-eq-ok (strings_where entry (is_text 1000) (get ms "acceptance_criteria")) _ h5 in
    let (g, h7) =
      >>-eq-ok (guard (leb 1 (length criteria) && leb (length criteria) 12) entry) _ h6 in
    let (deps, i, h8) =
      >>=-eq-ok (strings_where entry is_feature_id (get ms "dependencies")) _ h7 in
    let (j, h9) = >>-eq-ok (guard (leb (length deps) 15 && has_no_repetition deps) entry) _ h8 in
    let few = guard-eq-ok (leb 1 (length criteria) && leb (length criteria) 12) entry g in
    let once = guard-eq-ok (leb (length deps) 15 && has_no_repetition deps) entry j in
    subst (λ f. IsFeature f × (contains seen f.id ≡ false)) (ok_eq h9)
      (
        record {
          id = string_where-eq-ok entry is_feature_id (get ms "id") id a;
          title = string_where-eq-ok entry (is_text 200) (get ms "title") title c;
          summary = string_where-eq-ok entry (is_text 4000) (get ms "summary") summary d;
          criteria =
              strings_where-eq-ok entry (is_text 1000) (get ms "acceptance_criteria") criteria e;
          criteria_from = ground (arith, few);
          criteria_to = ground (arith, few);
          dependencies = Nodup-has_no_repetition deps (ground (arith, once));
          dependencies_to = ground (arith, once);
        },
        ground (arith, guard-eq-ok (not (contains seen id)) entry b),
      )

abbrev pub ids : List PlannedFeature → List String
ids = map (λ f. f.id)
