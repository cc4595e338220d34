-- ===== src/Mission/Paths.antt =====
-- mission.py, `_norm` and `_looks_like_a_path`: paths as `posixpath.normpath` spells them.
use Prim.Native.Char.{code}
use Prim.Native.String.{◌++◌}
use barista_apps.Prelude.{
  ℕ, String, Bool, false, not, ◌&&◌, ◌||◌, List, [], ◌∷◌, ◌==◌, text_equality, number_equality,
  if◌then◌else◌, is_empty,
}
use text.Mathlib.Text.{starts_with}
use mathlib.Core.List.{reverse}

abbrev slash : ℕ
slash = b'/'

-- `text.split("/")`: the part before the first separator, and the others.
split : String → String × List String
split String.[] = ("", [])
split (String.◌∷◌ c s) =
    let (part, parts) = split s in
    if code c == slash then ("", part ∷ parts) else (String.◌∷◌ c part, parts)

-- `"/".join(parts)`
join : List String → String
join [] = ""
join (p ∷ []) = p
join (p ∷ q ∷ ps) = p ++ ("/" ++ join (q ∷ ps))

-- `new_comps and new_comps[-1] == ".."`; the components are kept with the last one first.
abbrev ends_above : List String → Bool
ends_above [] = false
ends_above (p ∷ ps) = p == ".."

abbrev drop_last : List String → List String
drop_last [] = []
drop_last (p ∷ ps) = ps

normalise : Bool → List String → List String → List String
normalise rooted kept [] = kept
normalise rooted kept (c ∷ cs) =
    normalise rooted
      (if c == "" || c == "."
        then kept
        else if not (c == "..") || (not rooted && is_empty kept) || ends_above kept
        then c ∷ kept
        else drop_last kept)
      cs

leading : String → String
leading path =
    if not (starts_with path "/")
    then ""
    else if starts_with path "//" && not (starts_with path "///")
    then "//"
    else "/"

or_dot : String → String
or_dot path = if path == "" then "." else path

unfoldable pub normpath : String → String
unfolding split join normalise leading or_dot
normpath path =
    let (part, parts) = split path in
    or_dot (leading path ++ join (reverse (normalise (starts_with path "/") [] (part ∷ parts))))

-- `arg.startswith(("/", "./", "../"))`
unfoldable pub looks_like_a_path : String → Bool
looks_like_a_path arg = starts_with arg "/" || starts_with arg "./" || starts_with arg "../"
