-- ===== src/Sdk/RoundTrip.antt =====
-- sdks/python/barista_app_sdk/runs.py: the document of a run that was parsed parses to the run.
use barista_apps.Prelude.{
  String, true, false, Option, none, some, List, [], ◌∷◌, ◌≡◌, refl, ◌==◌, text_equality, arith,
  is_empty, contains, ◌∙◌, sym, ap, subst, ==_refl,
}
use barista_apps.Prelude.Result.{ok, ◌>>=◌, guard, >>=-eq-ok, >>-eq-ok, guard-eq-ok}
use barista_apps.Sdk.Json.{
  Json, null, boolean, number, string, array, object, Members, empty, member, get, unknown,
}
use barista_apps.Sdk.Names.{is_name}
use barista_apps.Sdk.Runs.{
  bad_field, undeclared_credentials, Parsed, require_name, require_text, mapping, known_only,
  with_mapping, AppRun, parse_run, to_document, parse_each, parse_secrets, each_document,
  secrets_document, parse_binding, parse_delivery, binding_document, delivery_document, run_fields,
  bare_run, parse_maps, parse_input, require_media_type, require_value, is_media_type, is_version,
  missing_credentials,
}
use barista_apps.Sdk.Fields.{IsFilled, require_name-Accepts, require_text-Accepts}
use barista_apps.Sdk.Bindings.{
  ok_eq, each_document-Reprints, secrets_document-Reprints, binding_document-Reprints,
  delivery_document-Reprints,
}

get-with_mapping :
    (field k : String) (ms rest : Members)
    → get rest k ≡ none
    → mapping field (get (with_mapping k ms rest) k) ≡ ok ms
unfolding get mapping
get-with_mapping field k empty rest h = rw h refl
get-with_mapping field k (member j x ms) rest h = ground (arith, ==_refl k)

get-with_mapping_other :
    (k q : String) (ms rest : Members)
    → (k == q) ≡ false
    → get (with_mapping k ms rest) q ≡ get rest q
unfolding get
get-with_mapping_other k q empty rest h = refl
get-with_mapping_other k q (member j x ms) rest h = ground (arith, h)

unknown-with_mapping :
    (allowed : List String) (k : String) (ms rest : Members)
    → contains allowed k ≡ true
    → unknown allowed (with_mapping k ms rest) ≡ unknown allowed rest
unfolding unknown
unknown-with_mapping allowed k empty rest h = refl
unknown-with_mapping allowed k (member j x ms) rest h = ground (arith, h)

-- The optional fields of a document.
abbrev tail_of : Members → Members → Members → Members → Members
tail_of b s d m =
    with_mapping "bindings" b
      (with_mapping "secrets" s (with_mapping "deliveries" d (with_mapping "metadata" m empty)))

record Optionals (b s d m : Members) : Type 0 where
  bindings : mapping "run.bindings" (get (tail_of b s d m) "bindings") ≡ ok b
  secrets : mapping "run.secrets" (get (tail_of b s d m) "secrets") ≡ ok s
  deliveries : mapping "run.deliveries" (get (tail_of b s d m) "deliveries") ≡ ok d
  metadata : mapping "run.metadata" (get (tail_of b s d m) "metadata") ≡ ok m
  known : unknown run_fields (tail_of b s d m) ≡ []

optionals : (b s d m : Members) → Optionals b s d m
unfolding get mapping unknown
optionals b s d m =
    let ms = with_mapping "metadata" m empty in
    let ds = with_mapping "deliveries" d ms in
    let ss = with_mapping "secrets" s ds in
    record {
      bindings = get-with_mapping "run.bindings" "bindings" b ss (
          get-with_mapping_other "secrets" "bindings" s ds refl
          ∙ get-with_mapping_other "deliveries" "bindings" d ms refl
          ∙ get-with_mapping_other "metadata" "bindings" m empty refl);
      secrets =
          ap (mapping "run.secrets") (get-with_mapping_other "bindings" "secrets" b ss refl)
          ∙ get-with_mapping "run.secrets" "secrets" s ds (
              get-with_mapping_other "deliveries" "secrets" d ms refl
              ∙ get-with_mapping_other "metadata" "secrets" m empty refl);
      deliveries =
          ap (mapping "run.deliveries") (
            get-with_mapping_other "bindings" "deliveries" b ss refl
            ∙ get-with_mapping_other "secrets" "deliveries" s ds refl)
          ∙ get-with_mapping "run.deliveries" "deliveries" d ms
              (get-with_mapping_other "metadata" "deliveries" m empty refl);
      metadata =
          ap (mapping "run.metadata") (
            get-with_mapping_other "bindings" "metadata" b ss refl
            ∙ get-with_mapping_other "secrets" "metadata" s ds refl
            ∙ get-with_mapping_other "deliveries" "metadata" d ms refl)
          ∙ get-with_mapping "run.metadata" "metadata" m empty refl;
      known =
          unknown-with_mapping run_fields "bindings" b ss refl
          ∙ unknown-with_mapping run_fields "secrets" s ds refl
          ∙ unknown-with_mapping run_fields "deliveries" d ms refl
          ∙ unknown-with_mapping run_fields "metadata" m empty refl;
    }

media_type_lem :
    (o : Option Json) (s : String) → require_media_type o ≡ ok s → is_media_type s ≡ true
unfolding require_media_type
media_type_lem none s h = cc
media_type_lem (some null) s h = cc
media_type_lem (some (boolean b)) s h = cc
media_type_lem (some (number b)) s h = cc
media_type_lem (some (array b)) s h = cc
media_type_lem (some (object b)) s h = cc
media_type_lem (some (string t)) s h = ground arith

printed_input :
    (o : Option Json) (input : String × Json)
    → parse_input o ≡ ok input
    → is_media_type input.0 ≡ true
unfolding parse_input
printed_input none input h = cc
printed_input (some null) input h = cc
printed_input (some (boolean b)) input h = cc
printed_input (some (number b)) input h = cc
printed_input (some (string b)) input h = cc
printed_input (some (array b)) input h = cc
printed_input (some (object ms)) input h =
    let (_, h0) =
      >>-eq-ok (guard (is_empty (unknown ("media_type" ∷ "value" ∷ []) ms)) (bad_field "run.input"))
        _ h in
    let (value, p1, h1) = >>=-eq-ok (require_value (get ms "value")) _ h0 in
    let (media_type, p2, h2) = >>=-eq-ok (require_media_type (get ms "media_type")) _ h1 in
    ap (λ (i : String × Json). is_media_type i.0) (sym (ok_eq h2))
    ∙ media_type_lem (get ms "media_type") media_type p2

-- What is checked of a run's maps, with the parts as they are printed.
record HasMaps (r : AppRun) : Type 0 where
  bindings : parse_each parse_binding (each_document binding_document r.bindings) ≡ ok r.bindings
  secrets : parse_secrets (secrets_document r.secrets) ≡ ok r.secrets
  deliveries :
      parse_each parse_delivery (each_document delivery_document r.deliveries) ≡ ok r.deliveries
  declared : is_empty (missing_credentials r.bindings r.deliveries r.secrets) ≡ true

-- What is checked of the other fields.
record HasFields (r : AppRun) : Type 0 where
  name : is_name r.name ≡ true
  operation : is_name r.operation ≡ true
  app : IsFilled r.app
  media_type : is_media_type r.input_media_type ≡ true

parsed_maps :
    (run r : AppRun) (raw_b raw_s raw_d : Members)
    → parse_maps run raw_b raw_s raw_d ≡ ok r
    → HasFields run
    → HasFields r × HasMaps r
unfolding parse_maps
parsed_maps run r raw_b raw_s raw_d h f =
    let (b, p6, h10) = >>=-eq-ok (parse_each parse_binding raw_b) _ h in
    let (s, p7, h11) = >>=-eq-ok (parse_secrets raw_s) _ h10 in
    let (d, p8, h12) = >>=-eq-ok (parse_each parse_delivery raw_d) _ h11 in
    let (p9, h13) =
      >>-eq-ok
        (guard (is_empty (missing_credentials b d s))
          (undeclared_credentials (missing_credentials b d s)))
        _ h12 in
    subst (λ r. HasFields r × HasMaps r) (ok_eq h13)
      (
        record { name = f.name; operation = f.operation; app = f.app; media_type = f.media_type },
        record {
          bindings =
              each_document-Reprints parse_binding binding_document binding_document-Reprints raw_b
                b p6;
          secrets = secrets_document-Reprints raw_s s p7;
          deliveries =
              each_document-Reprints parse_delivery delivery_document delivery_document-Reprints
                raw_d d p8;
          declared = guard-eq-ok _ _ p9;
        },
      )

abbrev read_maps : Members → AppRun → Parsed AppRun
read_maps v run = mapping "run.bindings" (get v "bindings") >>= λ b.
    mapping "run.secrets" (get v "secrets") >>= λ s.
    mapping "run.deliveries" (get v "deliveries") >>= λ d.
    mapping "run.metadata" (get v "metadata") >>= λ m.
    parse_maps (record run { metadata = m }) b s d

parsed_read :
    (v : Members) (run r : AppRun)
    → read_maps v run ≡ ok r
    → HasFields run
    → HasFields r × HasMaps r
parsed_read v run r h f =
    let (b, _, h6) = >>=-eq-ok (mapping "run.bindings" (get v "bindings")) _ h in
    let (s, _, h7) = >>=-eq-ok (mapping "run.secrets" (get v "secrets")) _ h6 in
    let (d, _, h8) = >>=-eq-ok (mapping "run.deliveries" (get v "deliveries")) _ h7 in
    let (m, _, h9) = >>=-eq-ok (mapping "run.metadata" (get v "metadata")) _ h8 in
    parsed_maps (record run { metadata = m }) r b s d h9
      (record { name = f.name; operation = f.operation; app = f.app; media_type = f.media_type })

parsed_run : (v : Members) (r : AppRun) → parse_run v ≡ ok r → HasFields r × HasMaps r
unfolding parse_run
parsed_run v r h =
    let (_, h0) = >>-eq-ok (known_only run_fields v) _ h in
    let (_, h1) =
      >>-eq-ok (guard (is_version (get v "schema_version")) (bad_field "run.schema_version")) _
        h0 in
    let (name, p2, h2) = >>=-eq-ok (require_name "run.name" (get v "name")) _ h1 in
    let (operation, p3, h3) = >>=-eq-ok (require_name "run.operation" (get v "operation")) _ h2 in
    let (app, p4, h4) = >>=-eq-ok (require_text "run.app" (get v "app")) _ h3 in
    let (input, p5, h5) = >>=-eq-ok (parse_input (get v "input")) _ h4 in
    parsed_read v (bare_run name app operation input.0 input.1 empty) r h5 (record {
      name = require_name-Accepts "run.name" (get v "name") name p2;
      operation = require_name-Accepts "run.operation" (get v "operation") operation p3;
      app = require_text-Accepts "run.app" (get v "app") app p4;
      media_type = printed_input (get v "input") input p5;
    })

input_again :
    (mt : String) (v : Json)
    → is_media_type mt ≡ true
    → parse_input (some (object (member "media_type" (string mt) (member "value" v empty))))
      ≡ ok (mt, v)
unfolding parse_input get unknown require_value require_media_type
input_again mt v h = ground (arith, h)

printed_maps :
    (r : AppRun)
    → HasMaps r
    → parse_maps
        (bare_run r.name r.app r.operation r.input_media_type r.input_value r.metadata)
        (each_document binding_document r.bindings)
        (secrets_document r.secrets)
        (each_document delivery_document r.deliveries)
      ≡ ok r
unfolding parse_maps
printed_maps r i = rw (i.bindings, i.secrets, i.deliveries, i.declared) refl

printed_run : (r : AppRun) → HasFields r → HasMaps r → parse_run (to_document r) ≡ ok r
unfolding parse_run to_document get unknown require_name require_text
printed_run r f i =
    let o =
      optionals (each_document binding_document r.bindings) (secrets_document r.secrets)
        (each_document delivery_document r.deliveries) r.metadata in
    rw
      (
        o.known,
        f.name,
        f.operation,
        f.app,
        input_again r.input_media_type r.input_value f.media_type,
        o.bindings,
        o.secrets,
        o.deliveries,
        o.metadata,
      )
      (printed_maps r i)

-- What is printed of a run that was parsed, whatever the document, parses to that run.
pub parse_run-to_document :
    (v : Members) (r : AppRun) → parse_run v ≡ ok r → parse_run (to_document r) ≡ ok r
parse_run-to_document v r h = let (f, m) = parsed_run v r h in printed_run r f m
