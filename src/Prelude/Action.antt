-- ===== src/Prelude/Action.antt =====
-- A computation over a state that may raise: it answers or raises, and leaves the state that it has
-- reached in both cases.
use mathlib.Core.Path.{◌≡◌, refl}
use mathlib.Core.Logic.{◌⊎◌, inl, inr}
use mathlib.Core.Bool.{Bool, true, false}
use barista_apps.Prelude.Result.{Result, ok, err}

abbrev pub Action : Type 0 → Type 0 → Type 0 → Type 0
Action E S A = S → Result E A × S

abbrev pub pure : {E S A : Type 0} → A → Action E S A
pure a s = (ok a, s)

abbrev pub raise : {E S A : Type 0} → E → Action E S A
raise e s = (err e, s)

abbrev pub bound : {E S A B : Type 0} → Result E A → (A → Action E S B) → Action E S B
bound (ok a) f s = f a s
bound (err e) f s = (err e, s)

infixl 5 ◌>>=◌ ◌>>◌
abbrev pub ◌>>=◌ : {E S A B : Type 0} → Action E S A → (A → Action E S B) → Action E S B
◌>>=◌ m f s = bound (m s).0 f (m s).1

abbrev pub ◌>>◌ : {E S B : Type 0} → Action E S (Unit {0}) → Action E S B → Action E S B
m >> k = m >>= λ _. k

-- `if not condition: raise e`
abbrev pub assure : {E S : Type 0} → Bool → E → Action E S (Unit {0})
assure true e s = (ok tt, s)
assure false e s = (err e, s)

-- A result of a computation without a state.
abbrev pub lifted : {E S A : Type 0} → Result E A → Action E S A
lifted r s = (r, s)

pub Answer-cases :
    {E S A : Type 0} (o : Result E A × S)
    → ((a : A) × (s : S) × (o ≡ (ok a, s))) ⊎ ((e : E) × (s : S) × (o ≡ (err e, s)))
Answer-cases (ok a, s) = inl (a, s, refl)
Answer-cases (err e, s) = inr (e, s, refl)

fault_ne :
    {E S B : Type 0} {e : E} {b : B} {s t : S} → Path (Result E B × S) (err e, s) (ok b, t) → ⊥
fault_ne p = cc

-- The parts of a sequence that returned.
pub >>=-eq-ok :
    {E S A B : Type 0} (m : Action E S A) (f : A → Action E S B) (s : S) {b : B} {t : S}
    → (m >>= f) s ≡ (ok b, t)
    → (a : A) × (u : S) × (m s ≡ (ok a, u)) × (f a u ≡ (ok b, t))
>>=-eq-ok m f s e = elim (Answer-cases (m s)) [
  | inl (a, u, p) ↦ (a, u, p, rw p at e)
  | inr (x, u, p) ↦ absurd (fault_ne (rw p at e))
]

-- A check that a sequence has passed.
pub assure-eq-ok :
    {E S B : Type 0} (b : Bool) (e : E) (k : Action E S B) (s : S) {v : B} {t : S}
    → (assure b e >> k) s ≡ (ok v, t)
    → (b ≡ true) × (k s ≡ (ok v, t))
assure-eq-ok true e k s h = (refl, h)
assure-eq-ok false e k s h = absurd (fault_ne h)

module _ {E S : Type 0} (K : S → Type 0) where
  -- A computation that keeps a statement of the state, however it ends.
  abbrev pub Keeps : {A : Type 0} → Action E S A → Type 0
  Keeps m = (s : S) → K s → K (m s).1

  bound-Keeps :
      {A B : Type 0} (r : Result E A) (f : A → Action E S B)
      → ((a : A) → Keeps (f a))
      → Keeps (bound r f)
  bound-Keeps (ok a) f h s k = h a s k
  bound-Keeps (err e) f h s k = k

  pub >>=-Keeps :
      {A B : Type 0} (m : Action E S A) (f : A → Action E S B)
      → Keeps m
      → ((a : A) → Keeps (f a))
      → Keeps (m >>= f)
  >>=-Keeps m f h g s k = bound-Keeps (m s).0 f g (m s).1 (h s k)

  pub checked-Keeps :
      {B : Type 0} (b : Bool) (e : E) (k : Action E S B) → Keeps k → Keeps (assure b e >> k)
  checked-Keeps true e k h s p = h s p
  checked-Keeps false e k h s p = p
