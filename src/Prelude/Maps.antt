-- ===== src/Prelude/Maps.antt =====
-- A JavaScript `Map`, as an association list in the order of insertion.
use mathlib.Core.Path.{◌≡◌, refl}
use mathlib.Core.Option.{Option, none, some}
use mathlib.Core.List.{List, [], ◌∷◌}
use native.Mathlib.Omega.{arith}
use stu_mgmt_service.Prelude.Tests.{Eq, ◌===◌, if◌then◌else◌}

module _ {K : Type 0} {V : Type 0} ⦃eq : Eq K⦄ where
  unfoldable pub map_get : K → List (K × V) → Option V
  map_get k [] = none
  map_get k ((j, v) ∷ m) = if j === k then some v else map_get k m

  unfoldable pub map_set : K → V → List (K × V) → List (K × V)
  map_set k v [] = (k, v) ∷ []
  map_set k v ((j, w) ∷ m) = if j === k then (j, v) ∷ m else (j, w) ∷ map_set k v m

  -- A key reads what was last set under it, and the other keys keep their values.
  pub map_get-map_set :
      (k j : K) (v : V) (m : List (K × V))
      → map_get j (map_set k v m) ≡ (if k === j then some v else map_get j m)
  unfolding map_get map_set
  map_get-map_set k j v [] = refl
  map_get-map_set k j v ((i, w) ∷ m) =
      ground (arith, eq.beq_iff i k, eq.beq_iff i j, eq.beq_iff k j, map_get-map_set k j v m)
