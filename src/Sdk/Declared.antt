-- ===== src/Sdk/Declared.antt =====
-- sdks/python/barista_app_sdk/runs.py: which runs an app's declaration admits.
use barista_apps.Prelude.{
  String, Bool, true, false, not, Option, none, some, List, [], ◌∷◌, ◌≡◌, refl, ap, subst, ◌↔◌, inl,
  inr, ◌==◌, text_equality, ==_iff, contains, keep, is_empty, All, All_map, Mem, arith, Bool-cases,
  Option-cases,
}
use barista_apps.Prelude.Dict.{Dict, find}
use barista_apps.Prelude.Result.{ok, guard, >>=-eq-ok, >>-eq-ok, guard-eq-ok}
use barista_apps.Sdk.Json.{Json}
use barista_apps.Sdk.Runs.{
  Parsed, AppRun, keys_of, undeclared_slots, missing_slots, wrong_media_type,
}
use barista_apps.Sdk.Validate.{
  RunSlot, RunOperation, from_manifest, missing, supports, validate_slots, kinds_of, validate_input,
  validate_run,
}

-- The items fit the slots: each has a slot that supports its kind, and each slot that is required
-- has an item.
pub record Fits (actual : Dict String) (declared : Dict RunSlot) : Type 0 where
  pub supported :
      All
        (λ item. (slot : RunSlot) × (find declared item.0 ≡ some slot) × Mem item.1 slot.kinds)
        actual
  pub filled : All (λ item. item.1.required ≡ true → Mem item.0 (keys_of actual)) declared

module _ {A : Type 0} where
  keep-empty :
      (p : A → Bool) (xs : List A) → (is_empty (keep p xs) ≡ true) ↔ All (λ x. p x ≡ false) xs
  keep-empty p [] = (λ _. tt, λ _. refl)
  keep-empty p (x ∷ xs) = (
    λ h. (ground arith, (keep-empty p xs).0 (ground arith)),
    λ h. ground (arith, h.0, (keep-empty p xs).1 h.1),
  )

missing-empty :
    (names : List String) (d : Dict RunSlot)
    → (is_empty (missing names d) ≡ true)
      ↔ All (λ item. item.1.required ≡ true → Mem item.0 names) d
unfolding missing
missing-empty names [] = (λ _. tt, λ _. refl)
missing-empty names ((name, slot) ∷ d) = (
  λ h. (λ r. ground arith, (missing-empty names d).0 (ground arith)),
  λ h. elim (Bool-cases slot.required) [
    | inl r ↦ ground (arith, h.0 r, (missing-empty names d).1 h.1)
    | inr r ↦ ground (arith, (missing-empty names d).1 h.1)
  ],
)

supported :
    (declared : Dict RunSlot) (name kind : String)
    → (supports declared name kind ≡ true)
      ↔ ((slot : RunSlot) × (find declared name ≡ some slot) × Mem kind slot.kinds)
supported declared name kind = elim (Option-cases (find declared name)) [
  | inl p ↦ (λ h. cc, λ (s, e, m). cc)
  | inr (slot, p) ↦ (λ h. (slot, p, ground (arith, p)), λ (s, e, m). ground (arith, p, e, m))
]

not-eq-false : {b : Bool} → not b ≡ false → b ≡ true
not-eq-false h = ground arith

op_eq : {a b : RunOperation} → Path (Parsed RunOperation) (ok a) (ok b) → a ≡ b
op_eq h = cc

find-keys_of :
    (d : Dict RunSlot) (n : String) (slot : RunSlot)
    → find d n ≡ some slot
    → contains (keys_of d) n ≡ true
unfolding find
find-keys_of [] n slot e = cc
find-keys_of ((j, s) ∷ d) n slot e = ground (arith, find-keys_of d n slot, ==_iff n j, ==_iff j n)

declared_names :
    (actual : Dict String) (declared : Dict RunSlot)
    → All
        (λ item. (slot : RunSlot) × (find declared item.0 ≡ some slot) × Mem item.1 slot.kinds)
        actual
    → is_empty (keep (λ n. not (contains (keys_of declared) n)) (keys_of actual)) ≡ true
declared_names [] declared h = refl
declared_names ((name, kind) ∷ actual) declared ((slot, e, m), h) =
    rw (find-keys_of declared name slot e) (declared_names actual declared h)

pub validate_slots-eq-ok :
    (actual : Dict String) (declared : Dict RunSlot)
    → (validate_slots actual declared ≡ ok tt) ↔ Fits actual declared
unfolding validate_slots
validate_slots-eq-ok actual declared =
    let undeclared = keep (λ n. not (contains (keys_of declared) n)) (keys_of actual) in
    let unfilled = missing (keys_of actual) declared in
    let wrong = keep (λ (item : String × String). not (supports declared item.0 item.1)) actual in
    (
      λ h.
          let (_, h1) = >>-eq-ok (guard (is_empty undeclared) (undeclared_slots undeclared)) _ h in
          let (p, h2) = >>-eq-ok (guard (is_empty unfilled) (missing_slots unfilled)) _ h1 in
          record {
            supported =
                All_map (λ item n. (supported declared item.0 item.1).0 (not-eq-false n)) actual
                  ((keep-empty (λ (item : String × String). not (supports declared item.0 item.1))
                      actual).0
                    (guard-eq-ok _ _ h2));
            filled = (missing-empty (keys_of actual) declared).0 (guard-eq-ok _ _ p);
          },
      λ f.
          rw
            (
              declared_names actual declared f.supported,
              (missing-empty (keys_of actual) declared).1 f.filled,
              (keep-empty (λ (item : String × String). not (supports declared item.0 item.1))
                    actual).1
                  (All_map (λ item e. ap not ((supported declared item.0 item.1).1 e)) actual
                    f.supported),
            )
            refl,
    )

module _ (conforms : Json → Json → Bool) where
  -- The input conforms to the schema, where there is one.
  abbrev pub Conforms : Option Json → Json → Type 0
  Conforms none v = Unit
  Conforms (some schema) v = conforms schema v ≡ true

  validate_input-eq-ok :
      (schema : Option Json) (v : Json)
      → (validate_input conforms schema v ≡ ok tt) ↔ Conforms schema v
  unfolding validate_input
  validate_input-eq-ok none v = (λ _. tt, λ _. refl)
  validate_input-eq-ok (some schema) v = (λ h. guard-eq-ok _ _ h, λ h. rw h refl)

  -- What it takes for a run to be admitted under an operation.
  pub record Admits (run : AppRun) (runs : Dict RunOperation) (operation : RunOperation)
      : Type 0 where
    pub declared : from_manifest runs run.operation ≡ ok operation
    pub media_type : run.input_media_type ≡ operation.input_media_type
    pub bindings : Fits (kinds_of (λ b. b.kind) run.bindings) operation.bindings
    pub deliveries : Fits (kinds_of (λ d. d.kind) run.deliveries) operation.deliveries
    pub input : Conforms operation.input_schema run.input_value

  -- A run is valid exactly when its operation is declared, its input has the declared media type and
  -- conforms to the declared schema, each binding and delivery has a declared slot that supports its
  -- kind, and each slot that is required has one.
  pub validate_run-eq-ok :
      (run : AppRun) (runs : Dict RunOperation) (operation : RunOperation)
      → (validate_run conforms run runs ≡ ok operation) ↔ Admits run runs operation
  unfolding validate_run
  validate_run-eq-ok run runs operation = (
    λ h.
        let (op, p, h0) = >>=-eq-ok (from_manifest runs run.operation) _ h in
        let (q, h1) =
          >>-eq-ok (guard (run.input_media_type == op.input_media_type) wrong_media_type) _ h0 in
        let (r, h2) =
          >>-eq-ok (validate_slots (kinds_of (λ b. b.kind) run.bindings) op.bindings) _ h1 in
        let (s, h3) =
          >>-eq-ok (validate_slots (kinds_of (λ d. d.kind) run.deliveries) op.deliveries) _ h2 in
        let (t, h4) = >>-eq-ok (validate_input conforms op.input_schema run.input_value) _ h3 in
        subst (λ o. Admits run runs o) (op_eq h4)
          (record {
            declared = p;
            media_type = (==_iff run.input_media_type op.input_media_type).0 (guard-eq-ok _ _ q);
            bindings = (validate_slots-eq-ok _ op.bindings).0 r;
            deliveries = (validate_slots-eq-ok _ op.deliveries).0 s;
            input = (validate_input-eq-ok op.input_schema run.input_value).0 t;
          }),
    λ a.
        rw
          (
            a.declared,
            (==_iff run.input_media_type operation.input_media_type).1 a.media_type,
            (validate_slots-eq-ok (kinds_of (λ b. b.kind) run.bindings) operation.bindings).1
                a.bindings,
            (validate_slots-eq-ok (kinds_of (λ d. d.kind) run.deliveries) operation.deliveries).1
                a.deliveries,
            (validate_input-eq-ok operation.input_schema run.input_value).1 a.input,
          )
          refl,
  )
