-- ===== src/Prelude/Dict/Maps.antt =====
-- A function on the values of a dict.
use Prim.Native.String.{String}
use mathlib.Core.Path.{◌≡◌, refl}
use mathlib.Core.Option.{Option, none, some}
use mathlib.Core.List.{[], ◌∷◌}
use native.Mathlib.Omega.{arith}
use naia_relay.Prelude.Dict.{Dict, lookup}

abbrev pub map_option : {A B : Type 0} → (A → B) → Option A → Option B
map_option f none = none
map_option f (some a) = some (f a)

module _ {V : Type 0} (g : V → V) where
  unfoldable pub map_values : Dict V → Dict V
  map_values [] = []
  map_values ((k, v) ∷ d) = (k, g v) ∷ map_values d

  pub lookup-map_values :
      (k : String) (d : Dict V) → lookup k (map_values d) ≡ map_option g (lookup k d)
  unfolding lookup map_values
  lookup-map_values k [] = refl
  lookup-map_values k ((j, v) ∷ d) = ground (arith, lookup-map_values k d)
