-- ===== src/Prelude/Tables.antt =====
-- Tables of a database as lists of rows: what its SQL statements do, one row at a time.
use mathlib.Core.Path.{◌≡◌, refl}
use mathlib.Core.Bool.{Bool, true, false}
use mathlib.Core.Option.{Option, none, some}
use mathlib.Core.List.{List, [], ◌∷◌, ◌++◌}
use native.Mathlib.Omega.{arith}
use Prim.Native.Nat.{ℕ}
use Prim.Native.String.{String}
use mathlib.Core.Logic.{inl, inr}
use barista_apps.Prelude.Tests.{Bool-cases, ◌==◌, text_equality, if◌then◌else◌, leb}
use barista_apps.Prelude.Lists.{keep, any, Listed}

-- The first row that passes a test: `fetchone` of a SELECT by key.
unfoldable pub fetch : {A : Type 0} → (A → Bool) → List A → Option A
fetch p [] = none
fetch p (x ∷ xs) = if p x then some x else fetch p xs

-- UPDATE … WHERE
unfoldable pub update : {A : Type 0} → (A → Bool) → (A → A) → List A → List A
update p f [] = []
update p f (x ∷ xs) = let rest = update p f xs in if p x then f x ∷ rest else x ∷ rest

-- `if text:`
unfoldable pub truthy : Option String → Option String
truthy none = none
truthy (some s) = if s == "" then none else some s

-- ORDER BY a number; rows with one number keep their order.
unfoldable pub place : {A : Type 0} → (A → ℕ) → A → List A → List A
place f x [] = x ∷ []
place f x (y ∷ ys) = let rest = place f x ys in if leb (f x) (f y) then x ∷ y ∷ ys else y ∷ rest

unfoldable pub order_by : {A : Type 0} → (A → ℕ) → List A → List A
unfolding place
order_by f [] = []
order_by f (x ∷ xs) = place f x (order_by f xs)

module _ {A : Type 0} where
  -- A table from which the rows are deleted has none of them.
  pub fetch-keep-none :
      (p q : A → Bool)
      → ((x : A) → p x ≡ true → q x ≡ false)
      → (xs : List A) → fetch p (keep q xs) ≡ none
  unfolding fetch
  fetch-keep-none p q h [] = refl
  fetch-keep-none p q h (x ∷ xs) = ground (arith, fetch-keep-none p q h xs, h x)

  -- The other rows stay.
  pub fetch-keep-some :
      (p q : A → Bool)
      → ((x : A) → p x ≡ true → q x ≡ true)
      → (xs : List A) → fetch p (keep q xs) ≡ fetch p xs
  unfolding fetch
  fetch-keep-some p q h [] = refl
  fetch-keep-some p q h (x ∷ xs) = ground (arith, fetch-keep-some p q h xs, h x)

  -- An updated row, where the update keeps the key.
  pub fetch-update :
      (p : A → Bool) (f : A → A)
      → ((x : A) → p (f x) ≡ p x)
      → (xs : List A)
      → fetch p (update p f xs) ≡ elim (fetch p xs) [ none ↦ none | some x ↦ some (f x) ]
  unfolding fetch update
  fetch-update p f h [] = refl
  fetch-update p f h (x ∷ xs) = ground (arith, fetch-update p f h xs, h x)

  -- The rows of another key are not updated.
  pub fetch-update_other :
      (p q : A → Bool) (f : A → A)
      → ((x : A) → q (f x) ≡ q x)
      → ((x : A) → q x ≡ true → p x ≡ false)
      → (xs : List A) → fetch q (update p f xs) ≡ fetch q xs
  unfolding fetch update
  fetch-update_other p q f h d [] = refl
  fetch-update_other p q f h d (x ∷ xs) = ground (arith, fetch-update_other p q f h d xs, h x, d x)

  -- An added row is found where no row had its key.
  pub fetch-append :
      (p : A → Bool) (xs : List A) (y : A)
      → any p xs ≡ false
      → p y ≡ true
      → fetch p (xs ++ y ∷ []) ≡ some y
  unfolding fetch
  fetch-append p [] y n h = ground arith
  fetch-append p (x ∷ xs) y n h = ground (arith, fetch-append p xs y)

  -- Adding a row hides no other.
  pub fetch-append_other :
      (p : A → Bool) (xs : List A) (y : A) → p y ≡ false → fetch p (xs ++ y ∷ []) ≡ fetch p xs
  unfolding fetch
  fetch-append_other p [] y h = ground arith
  fetch-append_other p (x ∷ xs) y h = ground (arith, fetch-append_other p xs y h)

  pub fetch-holds : (p : A → Bool) (xs : List A) (x : A) → fetch p xs ≡ some x → p x ≡ true
  unfolding fetch
  fetch-holds p [] x e = ground arith
  fetch-holds p (y ∷ ys) x e = ground (arith, fetch-holds p ys x)

  pub fetch-Listed : (p : A → Bool) (xs : List A) (x : A) → fetch p xs ≡ some x → Listed x xs
  unfolding fetch
  fetch-Listed p [] x e = ground arith
  fetch-Listed p (y ∷ ys) x e = elim (Bool-cases (p y)) [
    | inl h ↦ inl (ground (arith, h))
    | inr h ↦ inr (fetch-Listed p ys x (ground (arith, h)))
  ]

  -- A row of a table in which some rows are updated.
  pub fetch-update-some :
      (q p : A → Bool) (f : A → A)
      → ((x : A) → q (f x) ≡ q x)
      → (xs : List A)
      → fetch q (update p f xs)
        ≡ elim (fetch q xs) [ none ↦ none | some x ↦ some (if p x then f x else x) ]
  unfolding fetch update
  fetch-update-some q p f h [] = refl
  fetch-update-some q p f h (x ∷ xs) = ground (arith, fetch-update-some q p f h xs, h x)

  pub any-append : (p : A → Bool) (xs : List A) (y : A) → p y ≡ true → any p (xs ++ y ∷ []) ≡ true
  any-append p [] y h = ground arith
  any-append p (x ∷ xs) y h = ground (arith, any-append p xs y h)

  -- A row that was appended is found, or one that stood before it.
  pub fetch-append_some :
      (p : A → Bool) (xs : List A) (y : A)
      → p y ≡ true
      → (x : A) × (fetch p (xs ++ y ∷ []) ≡ some x)
  unfolding fetch
  fetch-append_some p [] y h = (y, ground arith)
  fetch-append_some p (x ∷ xs) y h = elim (Bool-cases (p x)) [
    | inl e ↦ (x, rw e refl)
    | inr e ↦ let (z, m) = fetch-append_some p xs y h in (z, rw e m)
  ]

  pub fetch-append_before :
      (p : A → Bool) (xs : List A) (y x : A) → fetch p xs ≡ some y → fetch p (xs ++ x ∷ []) ≡ some y
  unfolding fetch
  fetch-append_before p [] y x h = cc
  fetch-append_before p (z ∷ zs) y x h = ground (arith, fetch-append_before p zs y x)

  pub fetch-append_none :
      (p : A → Bool) (xs : List A) (y : A)
      → fetch p xs ≡ none
      → p y ≡ true
      → fetch p (xs ++ y ∷ []) ≡ some y
  unfolding fetch
  fetch-append_none p [] y n h = ground arith
  fetch-append_none p (x ∷ xs) y n h = ground (arith, fetch-append_none p xs y)
