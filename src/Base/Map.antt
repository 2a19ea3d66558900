-- ===== src/Base/Map.antt =====
-- A `Map` keyed by text, for the code that never reads its order: a function of the key.
use Prim.Native.String.{String}
use mathlib.Core.Bool.{Bool}
use mathlib.Core.Option.{Option, none, some}
use wattanman.Base.Tests.{if◌then◌else◌, str_eq}

abbrev pub Map {ℓ} : Type ℓ → Type ℓ
Map V = String → Option V

module _ {ℓ} {V : Type ℓ} where
  abbrev pub empty : Map V
  empty k = none

  -- `map.set(k, v)`
  abbrev pub set : Map V → String → V → Map V
  set m k v j = if str_eq k j then some v else m j

  -- `map.delete(k)`
  abbrev pub delete : Map V → String → Map V
  delete m k j = if str_eq k j then none else m j

  abbrev keep : (V → Bool) → Option V → Option V
  keep drop none = none
  keep drop (some v) = if drop v then none else some v

  -- `for (const [key, v] of map) if (drop(v)) map.delete(key)`
  abbrev pub sweep : Map V → (V → Bool) → Map V
  sweep m drop j = keep drop (m j)
