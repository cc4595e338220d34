-- ===== src/Prelude/Lists.antt =====
-- Lists as Python reads them: length, membership, comprehensions, `any` and `all`.
use Prim.Native.Nat.{ℕ, suc, ◌+◌, ◌≤◌, ◌<◌}
use mathlib.Core.Path.{◌≡◌, refl, ◌∙◌, subst}
use mathlib.Core.Logic.{◌↔◌, ◌⊎◌, inl, inr}
use mathlib.Core.Bool.{Bool, true, false, not, ◌&&◌, ◌||◌}
use mathlib.Core.List.{List, [], ◌∷◌, ◌++◌, map}
use native.Mathlib.Omega.{arith}
use barista_apps.Prelude.Tests.{HasEquality, Bool-cases, ◌==◌, ==_iff, ==_refl, if◌then◌else◌}

module _ {A : Type 0} where
  -- An element of a list, whether or not its type has a test for equality.
  abbrev pub Listed : A → List A → Type 0
  Listed x [] = ⊥
  Listed x (y ∷ ys) = (y ≡ x) ⊎ Listed x ys

module _ {ℓ} {A : Type ℓ} where
  abbrev pub length : List A → ℕ
  length [] = 0
  length (x ∷ xs) = suc (length xs)

  pub length-append : (xs ys : List A) → length (xs ++ ys) ≡ length xs + length ys
  length-append [] ys = omega arith
  length-append (x ∷ xs) ys = omega (arith, length-append xs ys)

  abbrev pub is_empty : List A → Bool
  is_empty [] = true
  is_empty (x ∷ xs) = false

  -- A comprehension with a condition.
  abbrev pub keep : (A → Bool) → List A → List A
  keep p [] = []
  keep p (x ∷ xs) = let rest = keep p xs in if p x then x ∷ rest else rest

  abbrev pub any : (A → Bool) → List A → Bool
  any p [] = false
  any p (x ∷ xs) = p x || any p xs

  abbrev pub all : (A → Bool) → List A → Bool
  all p [] = true
  all p (x ∷ xs) = p x && all p xs

  -- A statement of every element.
  abbrev pub All {κ} : (A → Type κ) → List A → Type κ
  All P [] = Unit
  All P (x ∷ xs) = P x × All P xs

  pub All_all {κ} : {P : A → Type κ} → ((x : A) → P x) → (xs : List A) → All P xs
  All_all f [] = tt
  All_all f (x ∷ xs) = (f x, All_all f xs)

  pub All_map {κ μ} :
      {P : A → Type κ} {Q : A → Type μ}
      → ((x : A) → P x → Q x)
      → (xs : List A) → All P xs
      → All Q xs
  All_map f [] h = tt
  All_map f (x ∷ xs) h = (f x h.0, All_map f xs h.1)

  pub All-append {κ} : (P : A → Type κ) (xs ys : List A) → All P xs → All P ys → All P (xs ++ ys)
  All-append P [] ys h k = k
  All-append P (x ∷ xs) ys h k = (h.0, All-append P xs ys h.1 k)

  pub all_iff : (p : A → Bool) (xs : List A) → (all p xs ≡ true) ↔ All (λ x. p x ≡ true) xs
  all_iff p [] = (λ _. tt, λ _. refl)
  all_iff p (x ∷ xs) = (
    λ h. (ground arith, (all_iff p xs).0 (ground arith)),
    λ (h, k). ground (arith, (all_iff p xs).1 k),
  )

  pub keep-eq-nil : (p : A → Bool) (xs : List A) → (keep p xs ≡ []) ↔ All (λ x. p x ≡ false) xs
  keep-eq-nil p [] = (λ _. tt, λ _. refl)
  keep-eq-nil p (x ∷ xs) = (
    λ h. (ground arith, (keep-eq-nil p xs).0 (ground arith)),
    λ (h, k). ground (arith, (keep-eq-nil p xs).1 k),
  )

module _ {ℓ} {A : Type ℓ} ⦃e : HasEquality A⦄ where
  -- `a in xs`
  abbrev pub contains : List A → A → Bool
  contains [] a = false
  contains (x ∷ xs) a = x == a || contains xs a

  abbrev pub Mem : A → List A → Type 0
  Mem a xs = contains xs a ≡ true

  abbrev pub Subset : List A → List A → Type ℓ
  Subset xs ys = (a : A) → Mem a xs → Mem a ys

  pub Mem-head : (x : A) (xs : List A) → Mem x (x ∷ xs)
  Mem-head x xs = ground (arith, ==_refl x)

  pub Mem-tail : (x a : A) (xs : List A) → Mem a xs → Mem a (x ∷ xs)
  Mem-tail x a xs h = ground arith

  pub Mem-cons : (x a : A) (xs : List A) → Mem a (x ∷ xs) → (x ≡ a) ⊎ Mem a xs
  Mem-cons x a xs h = ground (arith, ==_iff x a)

  pub contains-append :
      (xs ys : List A) (a : A) → contains (xs ++ ys) a ≡ (contains xs a || contains ys a)
  contains-append [] ys a = refl
  contains-append (x ∷ xs) ys a = ground (arith, contains-append xs ys a)

  pub All-Mem {κ} : (P : A → Type κ) (xs : List A) (a : A) → All P xs → Mem a xs → P a
  All-Mem P [] a h m = cc
  All-Mem P (x ∷ xs) a h m = elim (Mem-cons x a xs m) [
    | inl p ↦ rw (← p) h.0
    | inr k ↦ All-Mem P xs a h.1 k
  ]

  pub All_intro {κ} : (P : A → Type κ) (xs : List A) → ((a : A) → Mem a xs → P a) → All P xs
  All_intro P [] h = tt
  All_intro P (x ∷ xs) h = (h x (Mem-head x xs), All_intro P xs (λ a m. h a (Mem-tail x a xs m)))

  pub contains-keep :
      (p : A → Bool) (xs : List A) (a : A) → contains (keep p xs) a ≡ (p a && contains xs a)
  contains-keep p [] a = ground arith
  contains-keep p (x ∷ xs) a = ground (arith, contains-keep p xs a, ==_iff x a)

  -- No element stands twice.
  abbrev pub Nodup : List A → Type 0
  Nodup [] = Unit
  Nodup (x ∷ xs) = (contains xs x ≡ false) × Nodup xs

  -- An element of a list is none that is not in it.
  other : (x a : A) (xs : List A) → contains xs x ≡ false → Mem a xs → (a == x) ≡ false
  other x a xs n m = elim (Bool-cases (a == x)) [
    | inl e ↦ absurd (ground (arith, n, subst (λ a. contains xs a ≡ true) ((==_iff a x).0 e) m))
    | inr e ↦ e
  ]

  length-keep : (a : A) (xs : List A) → length (keep (λ x. not (x == a)) xs) ≤ length xs
  length-keep a [] = omega arith
  length-keep a (x ∷ xs) = ground (arith, length-keep a xs)

  without_shorter :
      (a : A) (xs : List A) → Mem a xs → length (keep (λ x. not (x == a)) xs) < length xs
  without_shorter a [] m = cc
  without_shorter a (x ∷ xs) m = ground (arith, length-keep a xs, without_shorter a xs)

  -- As many elements as a list has, at most, stand in one that has each once.
  pub length-Nodup : (xs ys : List A) → Nodup xs → Subset xs ys → length xs ≤ length ys
  length-Nodup [] ys n s = omega arith
  length-Nodup (x ∷ xs) ys n s =
      let rest = length-Nodup xs (keep (λ y. not (y == x)) ys) n.1 (λ a m.
        contains-keep (λ y. not (y == x)) ys a
        ∙ ground (arith, s a (Mem-tail x a xs m), other x a xs n.0 m)) in
      omega (arith, rest, without_shorter x ys (s x (Mem-head x xs)))

module _ {ℓ κ μ} {A : Type ℓ} {B : Type κ} where
  -- What holds of the images of the elements that a condition keeps.
  pub All-map-keep :
      (P : B → Type μ) (f : A → B) (q : A → Bool) (xs : List A)
      → All P (map f (keep q xs)) ↔ All (λ x. q x ≡ true → P (f x)) xs
  All-map-keep P f q [] = (λ _. tt, λ _. tt)
  All-map-keep P f q (x ∷ xs) = elim (Bool-cases (q x)) [
    | inl e ↦ rw e (
      λ h. (λ _. h.0, (All-map-keep P f q xs).0 h.1),
      λ h. (h.0 refl, (All-map-keep P f q xs).1 h.1),
    )
    | inr e ↦ rw e (λ h. (λ c. cc, (All-map-keep P f q xs).0 h), λ h. (All-map-keep P f q xs).1 h.1)
  ]

module _ {ℓ κ} {A : Type ℓ} {B : Type κ} where
  pub All-map {μ} :
      (P : B → Type μ) (f : A → B) (xs : List A) → All P (map f xs) ↔ All (λ x. P (f x)) xs
  All-map P f [] = (λ _. tt, λ _. tt)
  All-map P f (x ∷ xs) = (λ h. (h.0, (All-map P f xs).0 h.1), λ h. (h.0, (All-map P f xs).1 h.1))

  pub map-keep-eq-nil :
      (f : A → B) (q : A → Bool) (xs : List A)
      → (map f (keep q xs) ≡ []) ↔ All (λ x. q x ≡ false) xs
  map-keep-eq-nil f q [] = (λ _. tt, λ _. refl)
  map-keep-eq-nil f q (x ∷ xs) = (
    λ h. (ground arith, (map-keep-eq-nil f q xs).0 (ground arith)),
    λ h. ground (arith, (map-keep-eq-nil f q xs).1 h.1),
  )
