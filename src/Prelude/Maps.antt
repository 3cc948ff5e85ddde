-- ===== src/Prelude/Maps.antt =====
-- JavaScript's `Map` with texts as keys: its entries in the order of insertion.
use Prim.Native.String.{String}
use mathlib.Core.Path.{◌≡◌, refl}
use mathlib.Core.Option.{Option, none, some}
use mathlib.Core.List.{List, [], ◌∷◌}
use native.Mathlib.Omega.{arith}
use text.Mathlib.TextEquality.{eq_iff}
use gooseherd.Prelude.Tests.{if◌then◌else◌}
use gooseherd.Prelude.Equality.{◌==◌, String-Eq}

module _ {ℓ} {V : Type ℓ} where
  unfoldable pub map_get : String → List (String × V) → Option V
  map_get key [] = none
  map_get key (e ∷ entries) =
      let rest = map_get key entries in if e.0 == key then some e.1 else rest

  unfoldable pub map_set : String → V → List (String × V) → List (String × V)
  map_set key value [] = (key, value) ∷ []
  map_set key value (e ∷ entries) =
      let rest = map_set key value entries in
      if e.0 == key then (key, value) ∷ entries else e ∷ rest

  unfoldable pub map_delete : String → List (String × V) → List (String × V)
  map_delete key [] = []
  map_delete key (e ∷ entries) =
      let rest = map_delete key entries in if e.0 == key then rest else e ∷ rest

  pub map_get-map_set :
      (i j : String) (value : V) (entries : List (String × V))
      → map_get j (map_set i value entries) ≡ (if i == j then some value else map_get j entries)
  unfolding map_get map_set
  map_get-map_set i j value [] = refl
  map_get-map_set i j value (e ∷ entries) =
      ground (arith, eq_iff e.0 i, eq_iff e.0 j, eq_iff i j, map_get-map_set i j value entries)
