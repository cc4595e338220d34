-- ===== src/Prelude/Text.antt =====
-- Texts of Python: a number in an f-string, and a message on one line.
use Prim.Native.Nat.{ℕ, zero, suc, ◌/◌, ◌%◌}
use Prim.Native.Char.{code}
use Prim.Native.String.{String, ◌++◌ as append}
use mathlib.Core.Bool.{Bool, true, false, ◌&&◌, ◌||◌}
use mathlib.Core.List.{List, [], ◌∷◌}
use barista_apps.Prelude.Tests.{ltb, leb, eqb, if◌then◌else◌}

abbrev digit : List String → ℕ → String
digit [] n = ""
digit (d ∷ ds) zero = d
digit (d ∷ ds) (suc n) = digit ds n

abbrev digits : List String
digits = "0" ∷ "1" ∷ "2" ∷ "3" ∷ "4" ∷ "5" ∷ "6" ∷ "7" ∷ "8" ∷ "9" ∷ []

-- The number in an f-string. It has no more digits than its own value and one.
unfoldable pub decimal_from : ℕ → ℕ → String
decimal_from zero n = ""
decimal_from (suc fuel) n =
    let front = decimal_from fuel (n / 10) in
    if ltb n 10 then digit digits n else append front (digit digits (n % 10))

unfoldable pub decimal : ℕ → String
unfolding decimal_from
decimal n = decimal_from (suc n) n

-- What `str.split` takes for white space.
unfoldable pub is_space : ℕ → Bool
is_space c =
    (leb 9 c && leb c 13)
    || (leb 28 c && leb c 32)
    || eqb c 133
    || eqb c 160
    || eqb c 5760
    || (leb 8192 c && leb c 8202)
    || eqb c 8232
    || eqb c 8233
    || eqb c 8239
    || eqb c 8287
    || eqb c 12288

-- `" ".join(text.split())`: whether a word has been written, and whether space has followed it.
unfoldable pub squeezed : Bool → Bool → String → String
unfolding is_space
squeezed begun spaced String.[] = ""
squeezed begun spaced (String.◌∷◌ c s) =
    let skipped = squeezed begun begun s in
    let next = squeezed true false s in
    if is_space (code c)
    then skipped
    else if spaced
    then append " " (String.◌∷◌ c next)
    else String.◌∷◌ c next

-- text[:n]
unfoldable pub prefix : ℕ → String → String
prefix zero s = ""
prefix (suc n) String.[] = ""
prefix (suc n) (String.◌∷◌ c s) = String.◌∷◌ c (prefix n s)

-- `" ".join(str(message).split())[:n]`
unfoldable pub one_line : ℕ → String → String
unfolding squeezed prefix
one_line n s = prefix n (squeezed false false s)
