-- ===== src/Factory/Plan/Parsed.antt =====
-- apps/factory/barista_app_factory/product_program.py: what a plan that was parsed is.
use barista_apps.Prelude.{
  ℕ, ◌≤◌, String, Bool, true, false, not, ◌&&◌, Option, none, some, List, [], ◌∷◌, ◌==◌,
  text_equality, ==_iff, contains, all, all_iff, map, is_empty, length, leb, All, All_map, Mem,
  Mem-head, Mem-tail, Nodup, Subset, ◌≡◌, ◌≢◌, refl, sym, subst, inl, inr, arith, Bool-cases,
}
use barista_apps.Prelude.Result.{ok, guard, >>=-eq-ok, >>-eq-ok, guard-eq-ok}
use barista_apps.Sdk.Json.{
  Json, null, boolean, number, string, array, object, Items, nil, item, Members, get,
}
use barista_apps.Factory.Plan.{
  size, fields, schema, identity, dependency, not_canonical, secret, PlannedFeature, FeaturePlan,
  nodes, graph_of, exactly, entry_object, is_program, is_sha, string_where, parse_feature,
  parse_features, knows, check_graph, visited_all, values_of, count_items, is_version, plan_object,
  plan_fields, parse_document, same_bytes, parse_bytes,
}
use barista_apps.Factory.Plan.Reachable.{IsOrder}
use barista_apps.Factory.Plan.Schedule.{visited_all-eq-ok}
use barista_apps.Factory.Plan.Accepted.{
  ok_eq, refused, string_where-eq-ok, IsFeature, parse_feature-IsFeature,
}

abbrev pub ids : List PlannedFeature → List String
ids = map (λ f. f.id)

-- Entries after those of some identities.
record AreFeatures (seen : List String) (vs : Items) (fs : List PlannedFeature) : Type 0 where
  each : All IsFeature fs
  once : Nodup (ids fs)
  fresh : (n : String) → Mem n seen → contains (ids fs) n ≡ false
  count : length fs ≡ count_items vs

parse_features-AreFeatures :
    (seen : List String) (vs : Items) (fs : List PlannedFeature)
    → parse_features seen vs ≡ ok fs
    → AreFeatures seen vs fs
unfolding parse_features
parse_features-AreFeatures seen nil fs h =
    subst (AreFeatures seen nil) (ok_eq h)
      (record { each = tt; once = tt; fresh = λ n m. refl; count = refl })
parse_features-AreFeatures seen (item v vs) fs h =
    let (ms, _, h1) = >>=-eq-ok (entry_object v) _ h in
    let (f, a, h2) = >>=-eq-ok (parse_feature seen ms) _ h1 in
    let (rest, b, h3) = >>=-eq-ok (parse_features (f.id ∷ seen) vs) _ h2 in
    let (i, new) = parse_feature-IsFeature seen ms f a in
    let r = parse_features-AreFeatures (f.id ∷ seen) vs rest b in
    subst (AreFeatures seen (item v vs)) (ok_eq h3) (record {
      each = (i, r.each);
      once = (r.fresh f.id (Mem-head f.id seen), r.once);
      fresh = λ n m. elim (Bool-cases (f.id == n)) [
        | inl e ↦
            absurd (
              ground
                (arith, new, subst (λ n. contains seen n ≡ true) (sym ((==_iff f.id n).0 e)) m))
        | inr e ↦ ground (arith, r.fresh n (Mem-tail f.id n seen m))
      ];
      count = omega (arith, r.count);
    })

-- The dependencies of a feature are others of the features.
abbrev pub Knows : List String → PlannedFeature → Type 0
Knows names f = All (λ d. Mem d names × (d ≢ f.id)) f.dependencies

known_each :
    (names : List String) (fs : List PlannedFeature)
    → all (knows names) fs ≡ true
    → All (Knows names) fs
known_each names [] h = tt
known_each names (f ∷ fs) h = (
  All_map (λ d k. (ground (arith, k), λ e. ground (arith, k, (==_iff d f.id).1 e))) f.dependencies
      ((all_iff (λ d. contains names d && not (d == f.id)) f.dependencies).0 (ground arith)),
  known_each names fs (ground arith),
)

-- A plan within its bounds that can be carried out in some order.
pub record IsPlan (p : FeaturePlan) : Type 0 where
  pub program : is_program p.program ≡ true
  pub commit : is_sha p.approved_commit ≡ true
  pub from : 1 ≤ length p.features
  pub to : length p.features ≤ 16
  pub each : All IsFeature p.features
  pub once : Nodup (ids p.features)
  pub known : All (Knows (ids p.features)) p.features
  pub schedule :
      (order : List String) × IsOrder (graph_of p.features) order
      × Subset (nodes (graph_of p.features)) order

values_of-bounds :
    (v : Option Json) (vs : Items)
    → values_of v ≡ ok vs
    → (1 ≤ count_items vs) × (count_items vs ≤ 16)
unfolding values_of
values_of-bounds none vs h = cc
values_of-bounds (some null) vs h = cc
values_of-bounds (some (boolean b)) vs h = cc
values_of-bounds (some (number n)) vs h = cc
values_of-bounds (some (string t)) vs h = cc
values_of-bounds (some (object ms)) vs h = cc
values_of-bounds (some (array ws)) vs h =
    elim (Bool-cases (leb 1 (count_items ws) && leb (count_items ws) 16)) [
      | inl q ↦
          subst (λ vs. (1 ≤ count_items vs) × (count_items vs ≤ 16))
            (ok_eq (rw (values_of, q) at h)) (ground (arith, q), ground (arith, q))
      | inr q ↦ absurd (refused (rw (values_of, q) at h))
    ]

check_graph-IsOrder :
    (fs : List PlannedFeature)
    → check_graph fs ≡ ok tt
    → All (Knows (ids fs)) fs
      × ((order : List String) × IsOrder (graph_of fs) order × Subset (nodes (graph_of fs)) order)
unfolding check_graph
check_graph-IsOrder fs h =
    let (g, h1) = >>-eq-ok (guard (all (knows (ids fs)) fs) dependency) _ h in
    let (after, v, _) = >>=-eq-ok (visited_all (graph_of fs)) _ h1 in
    (
      known_each (ids fs) fs (guard-eq-ok (all (knows (ids fs)) fs) dependency g),
      (visited_all-eq-ok (graph_of fs)).0.0 (after, v),
    )

parse_document-IsPlan : (ms : Members) (p : FeaturePlan) → parse_document ms ≡ ok p → IsPlan p
unfolding parse_document
parse_document-IsPlan ms p h =
    let (_, h1) = >>-eq-ok (guard (exactly plan_fields ms) fields) _ h in
    let (_, h2) = >>-eq-ok (guard (is_version (get ms "schema_version")) schema) _ h1 in
    let (program, a, h3) = >>=-eq-ok (string_where identity is_program (get ms "program")) _ h2 in
    let (commit, b, h4) =
      >>=-eq-ok (string_where identity is_sha (get ms "approved_commit")) _ h3 in
    let (vs, c, h5) = >>=-eq-ok (values_of (get ms "features")) _ h4 in
    let (fs, d, h6) = >>=-eq-ok (parse_features [] vs) _ h5 in
    let (e, h7) = >>-eq-ok (check_graph fs) _ h6 in
    let few = values_of-bounds (get ms "features") vs c in
    let are = parse_features-AreFeatures [] vs fs d in
    let (known, schedule) = check_graph-IsOrder fs e in
    subst IsPlan (ok_eq h7) (record {
      program = string_where-eq-ok identity is_program (get ms "program") program a;
      commit = string_where-eq-ok identity is_sha (get ms "approved_commit") commit b;
      from = omega (arith, few.0, are.count);
      to = omega (arith, few.1, are.count);
      each = are.each;
      once = are.once;
      known = known;
      schedule = schedule;
    })

module _ (loads : List ℕ → Option Json) (canonical_bytes : Members → List ℕ)
    (has_secret : List ℕ → Bool) where
  -- A plan that is accepted comes from at most 65536 bytes without a secret; it has one to sixteen
  -- features of distinct names and within their bounds, none of which depends on itself or on a
  -- feature that is not there; and its features have an order in which each stands before those that
  -- it depends on.
  pub parse_bytes-IsPlan :
      (raw : List ℕ) (p : FeaturePlan)
      → parse_bytes loads canonical_bytes has_secret raw ≡ ok p
      → IsPlan p × (length raw ≤ 65536) × (has_secret raw ≡ false)
  unfolding parse_bytes
  parse_bytes-IsPlan raw p h =
      let (s, h1) = >>-eq-ok (guard (not (is_empty raw) && leb (length raw) 65536) size) _ h in
      let (ms, _, h2) = >>=-eq-ok (plan_object (loads raw)) _ h1 in
      let (plan, d, h3) = >>=-eq-ok (parse_document ms) _ h2 in
      let (_, h4) = >>-eq-ok (guard (same_bytes raw (canonical_bytes ms)) not_canonical) _ h3 in
      let (q, h5) = >>-eq-ok (guard (not (has_secret raw)) secret) _ h4 in
      (
        subst IsPlan (ok_eq h5) (parse_document-IsPlan ms plan d),
        ground (arith, guard-eq-ok (not (is_empty raw) && leb (length raw) 65536) size s),
        ground (arith, guard-eq-ok (not (has_secret raw)) secret q),
      )
