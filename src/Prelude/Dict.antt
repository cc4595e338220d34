-- ===== src/Prelude/Dict.antt =====
-- Python's `dict` with text keys, as the list of its items in the order of insertion.
use mathlib.Core.Path.{◌≡◌, refl}
use mathlib.Core.Option.{Option, none, some}
use mathlib.Core.List.{List, [], ◌∷◌}
use Prim.Native.String.{String}
use native.Mathlib.Omega.{arith}
use barista_apps.Prelude.Tests.{◌==◌, text_equality, ==_iff, if◌then◌else◌}

abbrev pub Dict {ℓ} : Type ℓ → Type ℓ
Dict V = List (String × V)

module _ {ℓ} {V : Type ℓ} where
  -- d.get(k)
  unfoldable pub find : Dict V → String → Option V
  find [] k = none
  find ((j, v) ∷ d) k = if k == j then some v else find d k

  -- d.pop(k, None)
  unfoldable pub discard : Dict V → String → Dict V
  discard [] k = []
  discard ((j, w) ∷ d) k = let kept = discard d k in if k == j then kept else (j, w) ∷ kept

  -- d[k] = v, which keeps the place of a key that is there.
  unfoldable pub assign : Dict V → String → V → Dict V
  assign [] k v = (k, v) ∷ []
  assign ((j, w) ∷ d) k v = if k == j then (j, v) ∷ d else (j, w) ∷ assign d k v

  pub find-discard :
      (k q : String) (d : Dict V) → find (discard d k) q ≡ (if q == k then none else find d q)
  unfolding find discard
  find-discard k q [] = ground arith
  find-discard k q ((j, w) ∷ d) =
      ground (arith, find-discard k q d, ==_iff k j, ==_iff q j, ==_iff q k)

  pub find-assign :
      (k q : String) (v : V) (d : Dict V)
      → find (assign d k v) q ≡ (if q == k then some v else find d q)
  unfolding find assign
  find-assign k q v [] = refl
  find-assign k q v ((j, w) ∷ d) =
      ground (arith, find-assign k q v d, ==_iff k j, ==_iff q j, ==_iff q k)
