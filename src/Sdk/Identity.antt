-- ===== src/Sdk/Identity.antt =====
-- sdks/python/barista_app_sdk/lifecycle.py, `_verify_result_identity`: what a result that has passed
-- it says of itself.
use barista_apps.Prelude.{
  String, Bool, true, false, ◌&&◌, Option, none, some, List, ◌≡◌, refl, ap, ◌⊎◌, inl, inr, arith,
  ==_iff, text_equality, All, All_map, all_iff, Mem, Option-cases,
}
use barista_apps.Prelude.Dict.{Dict, find}
use barista_apps.Sdk.Json.{Json, null, boolean, number, string, array, object, Members, get}
use barista_apps.Sdk.Runs.{AppRun}
use barista_apps.Sdk.Lifecycle.{terminal_result_states}
use barista_apps.Sdk.Collect.{
  is_text, text_in, identity_fields, identity_of, has_identity, identifies,
}

false_ne : false ≡ true → ⊥
false_ne e = cc

-- What is asked of a field of the identity stands in the identity of the result.
abbrev pub HasField : Dict String → Members → String → Type 0
HasField expected result field =
    (find expected field ≡ none)
    ⊎ ((e : String) × (ms : Members) × (find expected field ≡ some e)
        × (get result "identity" ≡ some (object ms))
        × (get ms field ≡ some (string e)))

pub is_text-eq : (o : Option Json) (t : String) → is_text o t ≡ true → o ≡ some (string t)
is_text-eq none t e = cc
is_text-eq (some null) t e = cc
is_text-eq (some (boolean b)) t e = cc
is_text-eq (some (number b)) t e = cc
is_text-eq (some (string s)) t e = ap (λ s. some (string s)) ((==_iff s t).0 e)
is_text-eq (some (array b)) t e = cc
is_text-eq (some (object b)) t e = cc

pub text_in-Mem :
    (names : List String) (o : Option Json)
    → text_in names o ≡ true
    → (st : String) × (o ≡ some (string st)) × Mem st names
text_in-Mem names none e = absurd (false_ne e)
text_in-Mem names (some null) e = absurd (false_ne e)
text_in-Mem names (some (boolean b)) e = absurd (false_ne e)
text_in-Mem names (some (number b)) e = absurd (false_ne e)
text_in-Mem names (some (string s)) e = (s, refl, e)
text_in-Mem names (some (array b)) e = absurd (false_ne e)
text_in-Mem names (some (object b)) e = absurd (false_ne e)

field_of :
    (o : Option Json) (field e : String)
    → is_text (get (identity_of o) field) e ≡ true
    → (ms : Members) × (o ≡ some (object ms)) × (get ms field ≡ some (string e))
unfolding get
field_of none field e h = absurd (false_ne h)
field_of (some null) field e h = absurd (false_ne h)
field_of (some (boolean b)) field e h = absurd (false_ne h)
field_of (some (number b)) field e h = absurd (false_ne h)
field_of (some (string s)) field e h = absurd (false_ne h)
field_of (some (array b)) field e h = absurd (false_ne h)
field_of (some (object ms)) field e h = (ms, refl, is_text-eq (get ms field) e h)

-- The test of one field.
abbrev has_field : Dict String → Members → String → Bool
has_field expected result field = elim (find expected field) [
  | none ↦ true
  | some e ↦ is_text (get (identity_of (get result "identity")) field) e
]

has_field-HasField :
    (expected : Dict String) (result : Members) (field : String)
    → has_field expected result field ≡ true
    → HasField expected result field
has_field-HasField expected result field k = elim (Option-cases (find expected field)) [
  | inl n ↦ inl n
  | inr (e, p) ↦
      let (ms, i, g) = field_of (get result "identity") field e (rw (p, has_field) at k) in
      inr (e, ms, p, i, g)
]

pub has_identity-HasField :
    (expected : Dict String) (result : Members)
    → has_identity expected result ≡ true
    → All (HasField expected result) identity_fields
unfolding has_identity
has_identity-HasField expected result h =
    All_map (has_field-HasField expected result) identity_fields
      ((all_iff (has_field expected result) identity_fields).0 h)

conjuncts :
    (a b c d e : Bool)
    → (a && (b && (c && (d && e)))) ≡ true
    → (a ≡ true) × (b ≡ true) × (c ≡ true) × (d ≡ true) × (e ≡ true)
conjuncts a b c d e h = (ground arith, ground arith, ground arith, ground arith, ground arith)

pub identifies_parts :
    (run : AppRun) (expected : Dict String) (result : Members)
    → identifies run expected result ≡ true
    → (is_text (get result "run") run.name ≡ true)
      × (is_text (get result "app") run.app ≡ true)
      × (is_text (get result "operation") run.operation ≡ true)
      × (has_identity expected result ≡ true)
      × (text_in terminal_result_states (get result "state") ≡ true)
unfolding identifies
identifies_parts run expected result h = conjuncts _ _ _ _ _ h
