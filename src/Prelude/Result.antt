-- ===== src/Prelude/Result.antt =====
-- A computation that may raise: the value returned, or the exception.
use mathlib.Core.Path.{◌≡◌, refl}
use mathlib.Core.Bool.{Bool, true, false}

pub data Result (E A : Type 0) : Type 0 where
  ok : A → Result E A
  err : E → Result E A

infixl 5 ◌>>=◌ ◌>>◌
abbrev pub ◌>>=◌ : {E A B : Type 0} → Result E A → (A → Result E B) → Result E B
ok a >>= f = f a
err e >>= f = err e

abbrev pub ◌>>◌ : {E B : Type 0} → Result E (Unit {0}) → Result E B → Result E B
m >> k = m >>= λ _. k

-- `if not condition: raise e`
abbrev pub guard : {E : Type 0} → Bool → E → Result E (Unit {0})
guard true e = ok tt
guard false e = err e

-- The parts of a sequence that returned.
pub >>-eq-ok :
    {E B : Type 0} (m : Result E (Unit {0})) (k : Result E B) {b : B}
    → (m >> k) ≡ ok b
    → (m ≡ ok tt) × (k ≡ ok b)
>>-eq-ok (ok tt) k h = (refl, h)
>>-eq-ok (err e) k h = cc

pub guard-eq-ok : {E : Type 0} (b : Bool) (e : E) → guard b e ≡ ok tt → b ≡ true
guard-eq-ok true e h = refl
guard-eq-ok false e h = cc

module _ {E A B : Type 0} (k : A → Result E B) {v : B} where
  carried : (r : Result E A) → (r >>= k) ≡ ok v → (x : A) × (r ≡ ok x) × (k x ≡ ok v)
  carried (err e) h = cc
  carried (ok x) h = (x, refl, h)

-- The value that the first part returned, and what the rest made of it.
pub >>=-eq-ok :
    {E A B : Type 0} (r : Result E A) (k : A → Result E B) {v : B}
    → (r >>= k) ≡ ok v
    → (x : A) × (r ≡ ok x) × (k x ≡ ok v)
>>=-eq-ok r k h = carried k r h
