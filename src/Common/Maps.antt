-- ===== src/Common/Maps.antt =====
-- A Go map as an association list: a write replaces the entry or adds one at the end.
use mathlib.Core.Path.{◌≡◌, refl}
use mathlib.Core.List.{List, [], ◌∷◌}
use mathlib.Core.Option.{Option, none, some}
use native.Mathlib.Omega.{arith}
use code_scout.Common.Tests.{if◌then◌else◌}
use code_scout.Common.Text.{Eq}

module _ {ℓ κ} {K : Type ℓ} {V : Type κ} ⦃e : Eq K⦄ where
  unfoldable pub lookup : K → List (K × V) → Option V
  lookup k [] = none
  lookup k ((j, v) ∷ m) = if e.equals j k then some v else lookup k m

  unfoldable pub insert : K → V → List (K × V) → List (K × V)
  insert key new [] = (key, new) ∷ []
  insert key new ((k, old) ∷ m) =
      if e.equals k key then (key, new) ∷ m else (k, old) ∷ insert key new m

  -- `delete(m, k)`
  unfoldable pub delete : K → List (K × V) → List (K × V)
  delete k [] = []
  delete k ((j, w) ∷ m) = let rest = delete k m in if e.equals j k then rest else (j, w) ∷ rest

  pub lookup-insert :
      (key k : K) (new : V) (m : List (K × V))
      → lookup k (insert key new m) ≡ (if e.equals key k then some new else lookup k m)
  unfolding lookup insert
  lookup-insert key k new [] = refl
  lookup-insert key k new ((j, old) ∷ m) =
      ground
        (arith, e.equals_iff key k, e.equals_iff j key, e.equals_iff j k, lookup-insert key k new m)

  pub lookup-delete :
      (k j : K) (m : List (K × V))
      → lookup j (delete k m) ≡ (if e.equals k j then none else lookup j m)
  unfolding lookup delete
  lookup-delete k j [] = ground arith
  lookup-delete k j ((i, w) ∷ m) =
      ground (arith, e.equals_iff k j, e.equals_iff i k, e.equals_iff i j, lookup-delete k j m)
