-- ===== src/Sdk/Names.antt =====
-- sdks/python/barista_app_sdk/runs.py: the patterns of names, kinds and secret references, over the
-- codes of a text's characters.
use Prim.Native.Char.{code}
use Prim.Native.String.{String}
use barista_apps.Prelude.{
  ℕ, Bool, true, false, not, ◌&&◌, ◌||◌, Option, none, some, List, [], ◌∷◌, leb, eqb, if◌then◌else◌,
  all, any, is_empty, length,
}

unfoldable pub codes : String → List ℕ
codes String.[] = []
codes (String.◌∷◌ c s) = code c ∷ codes s

-- [a-z0-9]
abbrev pub is_plain : ℕ → Bool
is_plain c = (leb b'a' c && leb c b'z') || (leb b'0' c && leb c b'9')

-- The rest of [a-z0-9](?:[a-z0-9-]*[a-z0-9])? after a character, which tells whether it may end.
unfoldable pub name_tail : Bool → List ℕ → Bool
name_tail plain [] = plain
name_tail plain (c ∷ cs) =
    let rest = name_tail (is_plain c) cs in (is_plain c || eqb c b'-') && rest

-- `_NAME`
unfoldable pub matches_name : List ℕ → Bool
unfolding name_tail
matches_name [] = false
matches_name (c ∷ cs) = is_plain c && name_tail true cs

-- A text in parts at its dots: the part before the first, and the others.
unfoldable pub at_dots : List ℕ → List ℕ × List (List ℕ)
at_dots [] = ([], [])
at_dots (c ∷ cs) =
    let (part, parts) = at_dots cs in if eqb c b'.' then ([], part ∷ parts) else (c ∷ part, parts)

-- `_KIND`: two names or more with dots between them.
unfoldable pub matches_kind : List ℕ → Bool
unfolding matches_name at_dots
matches_kind cs =
    let (part, parts) = at_dots cs in
    matches_name part && not (is_empty parts) && all matches_name parts

-- What follows a prefix.
unfoldable pub after : List ℕ → List ℕ → Option (List ℕ)
after [] cs = some cs
after (p ∷ ps) [] = none
after (p ∷ ps) (c ∷ cs) = let rest = after ps cs in if eqb p c then rest else none

-- `.+`, where the dot stands for all but a line feed.
abbrev pub is_line : Option (List ℕ) → Bool
is_line none = false
is_line (some cs) = not (is_empty cs) && all (λ c. not (eqb c 10)) cs

-- `_SECRET_REF`
unfoldable pub matches_secret_ref : List ℕ → Bool
unfolding codes after
matches_secret_ref cs =
    any (λ scheme. is_line (after (codes scheme) cs))
      ("secret://" ∷ "grant://" ∷ "ref://" ∷ "vault://" ∷ "env://" ∷ [])

-- `_require_name`: `len(value) > 80` is refused.
unfoldable pub is_name : String → Bool
unfolding codes matches_name
is_name s = leb (length (codes s)) 80 && matches_name (codes s)

-- `_require_kind`
unfoldable pub is_kind : String → Bool
unfolding codes matches_kind
is_kind s = leb (length (codes s)) 214 && matches_kind (codes s)

unfoldable pub is_secret_ref : String → Bool
unfolding codes matches_secret_ref
is_secret_ref s = matches_secret_ref (codes s)
