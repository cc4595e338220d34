-- ===== src/Sdk/Bindings.antt =====
-- sdks/python/barista_app_sdk/runs.py: the documents of bindings, deliveries and secrets parse to
-- what they were printed from.
use barista_apps.Prelude.{
  String, true, Option, none, some, [], ◌∷◌, ◌≡◌, refl, text_equality, arith, subst,
}
use barista_apps.Prelude.Dict.{Dict}
use barista_apps.Prelude.Result.{ok, >>=-eq-ok, >>-eq-ok}
use barista_apps.Sdk.Json.{
  Json, null, boolean, number, string, array, object, Members, empty, member, get, unknown,
}
use barista_apps.Sdk.Names.{is_name, is_kind}
use barista_apps.Sdk.Runs.{
  Parsed, require_name, require_kind, require_text, optional, mapping, known_only, RunBinding,
  DeliveryRequest, parse_binding, parse_delivery, binding_document, delivery_document, parse_each,
  parse_secrets, parse_secret, each_document, secrets_document,
}
use barista_apps.Sdk.Fields.{
  IsFilled, OfText, require_name-Accepts, require_kind-Accepts, require_text-Accepts,
  optional-Accepts,
}

pub record IsBinding (b : RunBinding) : Type 0 where
  pub kind : is_kind b.kind ≡ true
  pub uri : IsFilled b.uri
  pub ref : OfText IsFilled b.ref
  pub credential : OfText (λ s. is_name s ≡ true) b.credential

pub ok_eq : {A : Type 0} {a b : A} → Path (Parsed A) (ok a) (ok b) → a ≡ b
ok_eq h = cc

parse_binding-IsBinding : (v : Members) (b : RunBinding) → parse_binding v ≡ ok b → IsBinding b
unfolding parse_binding
parse_binding-IsBinding v b h =
    let (_, h0) =
      >>-eq-ok (known_only ("kind" ∷ "uri" ∷ "ref" ∷ "credential" ∷ "options" ∷ []) v) _ h in
    let (kind, p1, h1) = >>=-eq-ok (require_kind "kind" (get v "kind")) _ h0 in
    let (uri, p2, h2) = >>=-eq-ok (require_text "uri" (get v "uri")) _ h1 in
    let (ref, p3, h3) = >>=-eq-ok (optional (require_text "ref") (get v "ref")) _ h2 in
    let (credential, p4, h4) =
      >>=-eq-ok (optional (require_name "credential") (get v "credential")) _ h3 in
    let (options, p5, h5) = >>=-eq-ok (mapping "options" (get v "options")) _ h4 in
    subst IsBinding (ok_eq h5) (record {
      kind = require_kind-Accepts "kind" (get v "kind") kind p1;
      uri = require_text-Accepts "uri" (get v "uri") uri p2;
      ref =
          optional-Accepts IsFilled (require_text "ref") (require_text-Accepts "ref") (get v "ref")
            ref p3;
      credential =
          optional-Accepts (λ s. is_name s ≡ true) (require_name "credential")
            (require_name-Accepts "credential") (get v "credential") credential p4;
    })

printed :
    (kind uri : String) (ref credential : Option String) (options : Members)
    → is_kind kind ≡ true
    → IsFilled uri
    → OfText IsFilled ref
    → OfText (λ s. is_name s ≡ true) credential
    → parse_binding (
        binding_document (record {
          kind = kind;
          uri = uri;
          ref = ref;
          credential = credential;
          options = options;
        }))
      ≡ ok
          (record { kind = kind; uri = uri; ref = ref; credential = credential; options = options })
unfolding parse_binding binding_document require_kind require_text require_name optional mapping get
    unknown
printed kind uri none none empty k u r c = ground (arith, k, u)
printed kind uri none none (member j x ms) k u r c = ground (arith, k, u)
printed kind uri none (some d) empty k u r c = ground (arith, k, u, c)
printed kind uri none (some d) (member j x ms) k u r c = ground (arith, k, u, c)
printed kind uri (some f) none empty k u r c = ground (arith, k, u, r)
printed kind uri (some f) none (member j x ms) k u r c = ground (arith, k, u, r)
printed kind uri (some f) (some d) empty k u r c = ground (arith, k, u, r, c)
printed kind uri (some f) (some d) (member j x ms) k u r c = ground (arith, k, u, r, c)

-- What a parser accepts it accepts again from what is printed of it.
abbrev pub Reprints : {A : Type 0} → (Members → Parsed A) → (A → Members) → Type 0
Reprints {A} parse document = (v : Members) (a : A) → parse v ≡ ok a → parse (document a) ≡ ok a

pub binding_document-Reprints : Reprints parse_binding binding_document
binding_document-Reprints v b h =
    let i = parse_binding-IsBinding v b h in
    printed b.kind b.uri b.ref b.credential b.options i.kind i.uri i.ref i.credential

pub record IsDelivery (d : DeliveryRequest) : Type 0 where
  pub kind : is_kind d.kind ≡ true
  pub target : OfText IsFilled d.target
  pub credential : OfText (λ s. is_name s ≡ true) d.credential

parse_delivery-IsDelivery :
    (v : Members) (d : DeliveryRequest) → parse_delivery v ≡ ok d → IsDelivery d
unfolding parse_delivery
parse_delivery-IsDelivery v d h =
    let (_, h0) = >>-eq-ok (known_only ("kind" ∷ "target" ∷ "credential" ∷ "options" ∷ []) v) _ h in
    let (kind, p1, h1) = >>=-eq-ok (require_kind "kind" (get v "kind")) _ h0 in
    let (target, p2, h2) = >>=-eq-ok (optional (require_text "target") (get v "target")) _ h1 in
    let (credential, p3, h3) =
      >>=-eq-ok (optional (require_name "credential") (get v "credential")) _ h2 in
    let (options, p4, h4) = >>=-eq-ok (mapping "options" (get v "options")) _ h3 in
    subst IsDelivery (ok_eq h4) (record {
      kind = require_kind-Accepts "kind" (get v "kind") kind p1;
      target =
          optional-Accepts IsFilled (require_text "target") (require_text-Accepts "target")
            (get v "target") target p2;
      credential =
          optional-Accepts (λ s. is_name s ≡ true) (require_name "credential")
            (require_name-Accepts "credential") (get v "credential") credential p3;
    })

printed_delivery :
    (kind : String) (target credential : Option String) (options : Members)
    → is_kind kind ≡ true
    → OfText IsFilled target
    → OfText (λ s. is_name s ≡ true) credential
    → parse_delivery (
        delivery_document
          (record { kind = kind; target = target; credential = credential; options = options }))
      ≡ ok (record { kind = kind; target = target; credential = credential; options = options })
unfolding parse_delivery delivery_document require_kind require_text require_name optional mapping
    get unknown
printed_delivery kind none none empty k t c = ground (arith, k)
printed_delivery kind none none (member j x ms) k t c = ground (arith, k)
printed_delivery kind none (some d) empty k t c = ground (arith, k, c)
printed_delivery kind none (some d) (member j x ms) k t c = ground (arith, k, c)
printed_delivery kind (some f) none empty k t c = ground (arith, k, t)
printed_delivery kind (some f) none (member j x ms) k t c = ground (arith, k, t)
printed_delivery kind (some f) (some d) empty k t c = ground (arith, k, t, c)
printed_delivery kind (some f) (some d) (member j x ms) k t c = ground (arith, k, t, c)

pub delivery_document-Reprints : Reprints parse_delivery delivery_document
delivery_document-Reprints v d h =
    let i = parse_delivery-IsDelivery v d h in
    printed_delivery d.kind d.target d.credential d.options i.kind i.target i.credential

name_again : (field s : String) → is_name s ≡ true → require_name field (some (string s)) ≡ ok s
unfolding require_name
name_again field s h = ground (arith, h)

name_same : (field k s : String) → require_name field (some (string k)) ≡ ok s → k ≡ s
unfolding require_name
name_same field k s h = ground arith

pub each_document-Reprints :
    {A : Type 0} (parse : Members → Parsed A) (document : A → Members)
    → Reprints parse document
    → (v : Members) (d : Dict A) → parse_each parse v ≡ ok d
    → parse_each parse (each_document document d) ≡ ok d
unfolding parse_each each_document mapping require_name
each_document-Reprints parse document r empty d h =
    subst (λ d. parse_each parse (each_document document d) ≡ ok d) (ok_eq h) refl
each_document-Reprints parse document r (member k x v) d h =
    let (name, p1, h1) = >>=-eq-ok (require_name "name" (some (string k))) _ h in
    let (doc, p2, h2) = >>=-eq-ok (mapping k (some x)) _ h1 in
    let (a, p3, h3) = >>=-eq-ok (parse doc) _ h2 in
    let (rest, p4, h4) = >>=-eq-ok (parse_each parse v) _ h3 in
    let n = name_again "name" name (require_name-Accepts "name" (some (string k)) name p1) in
    subst (λ d. parse_each parse (each_document document d) ≡ ok d) (ok_eq h4)
      (rw (n, r doc a p3, each_document-Reprints parse document r v rest p4, parse_each, mapping)
        refl)

secret_again :
    (k : String) (x : Json) (s : String × String)
    → parse_secret k x ≡ ok s
    → parse_secret s.0 (string s.1) ≡ ok s
unfolding parse_secret require_name
secret_again k null s h = cc
secret_again k (boolean b) s h = cc
secret_again k (number b) s h = cc
secret_again k (array b) s h = cc
secret_again k (object b) s h = cc
secret_again k (string ref) (name, r) h = ground arith

pub secrets_document-Reprints :
    (v : Members) (d : Dict String)
    → parse_secrets v ≡ ok d
    → parse_secrets (secrets_document d) ≡ ok d
unfolding parse_secrets secrets_document
secrets_document-Reprints empty d h =
    subst (λ d. parse_secrets (secrets_document d) ≡ ok d) (ok_eq h) refl
secrets_document-Reprints (member k x v) d h =
    let (secret, p1, h1) = >>=-eq-ok (parse_secret k x) _ h in
    let (rest, p2, h2) = >>=-eq-ok (parse_secrets v) _ h1 in
    subst (λ d. parse_secrets (secrets_document d) ≡ ok d) (ok_eq h2)
      (rw (secret_again k x secret p1, secrets_document-Reprints v rest p2, parse_secrets) refl)
