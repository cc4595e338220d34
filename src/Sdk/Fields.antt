-- ===== src/Sdk/Fields.antt =====
-- sdks/python/barista_app_sdk/runs.py: what the single fields of a document parse to.
use barista_apps.Prelude.{
  String, true, false, Option, none, some, ◌≡◌, subst, ◌==◌, text_equality, arith,
}
use barista_apps.Prelude.Result.{ok, ◌>>=◌, >>=-eq-ok}
use barista_apps.Sdk.Json.{Json, null, boolean, number, string, array, object}
use barista_apps.Sdk.Names.{is_name, is_kind}
use barista_apps.Sdk.Runs.{Parsed, require_name, require_kind, require_text, optional}

abbrev pub IsFilled : String → Type 0
IsFilled s = (s == "") ≡ false

-- A statement of a text that may be absent.
abbrev pub OfText : (String → Type 0) → Option String → Type 0
OfText P none = Unit
OfText P (some s) = P s

-- What a parser of a text accepts satisfies a statement.
abbrev pub Accepts : (String → Type 0) → (Option Json → Parsed String) → Type 0
Accepts P f = (o : Option Json) (s : String) → f o ≡ ok s → P s

pub require_name-Accepts : (field : String) → Accepts (λ s. is_name s ≡ true) (require_name field)
unfolding require_name
require_name-Accepts field none s h = cc
require_name-Accepts field (some null) s h = cc
require_name-Accepts field (some (boolean b)) s h = cc
require_name-Accepts field (some (number n)) s h = cc
require_name-Accepts field (some (array xs)) s h = cc
require_name-Accepts field (some (object ms)) s h = cc
require_name-Accepts field (some (string t)) s h = ground arith

pub require_kind-Accepts : (field : String) → Accepts (λ s. is_kind s ≡ true) (require_kind field)
unfolding require_kind
require_kind-Accepts field none s h = cc
require_kind-Accepts field (some null) s h = cc
require_kind-Accepts field (some (boolean b)) s h = cc
require_kind-Accepts field (some (number n)) s h = cc
require_kind-Accepts field (some (array xs)) s h = cc
require_kind-Accepts field (some (object ms)) s h = cc
require_kind-Accepts field (some (string t)) s h = ground arith

pub require_text-Accepts : (field : String) → Accepts IsFilled (require_text field)
unfolding require_text
require_text-Accepts field none s h = cc
require_text-Accepts field (some null) s h = cc
require_text-Accepts field (some (boolean b)) s h = cc
require_text-Accepts field (some (number n)) s h = cc
require_text-Accepts field (some (array xs)) s h = cc
require_text-Accepts field (some (object ms)) s h = cc
require_text-Accepts field (some (string t)) s h = ground arith

some_of : {t s : String} → Path (Parsed (Option String)) (ok (some t)) (ok (some s)) → t ≡ s
some_of h = cc

accepted :
    (P : String → Type 0) (f : Option Json → Parsed String)
    → Accepts P f
    → (o : Option Json) (s : String) → (f o >>= λ t. ok (some t)) ≡ ok (some s)
    → P s
accepted P f a o s h =
    let (t, p, q) = >>=-eq-ok (f o) (λ t. ok (some t)) h in
    let e : t ≡ s = some_of q in subst P (e) (a o t p)

pub optional-Accepts :
    (P : String → Type 0) (f : Option Json → Parsed String)
    → Accepts P f
    → (o : Option Json) (s : Option String) → optional f o ≡ ok s
    → OfText P s
unfolding optional
optional-Accepts P f a o none h = tt
optional-Accepts P f a none (some s) h = cc
optional-Accepts P f a (some null) (some s) h = cc
optional-Accepts P f a (some (boolean b)) (some s) h = accepted P f a (some (boolean b)) s h
optional-Accepts P f a (some (number b)) (some s) h = accepted P f a (some (number b)) s h
optional-Accepts P f a (some (string b)) (some s) h = accepted P f a (some (string b)) s h
optional-Accepts P f a (some (array b)) (some s) h = accepted P f a (some (array b)) s h
optional-Accepts P f a (some (object b)) (some s) h = accepted P f a (some (object b)) s h
