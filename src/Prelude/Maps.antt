-- ===== src/Prelude/Maps.antt =====
-- Maps with number keys that the program never walks through: functions into options.
use Prim.Native.Nat.{ℕ}
use mathlib.Core.Option.{Option, none, some}
use mathlib.Core.Bool.{Bool}
use panda_gen.Prelude.Tests.{◌==◌, if◌then◌else◌}

abbrev pub Map {ℓ} : Type ℓ → Type ℓ
Map V = ℕ → Option V

module _ {ℓ} {V : Type ℓ} where
  abbrev pub empty_map : Map V
  empty_map k = none

  abbrev pub put : Map V → ℕ → V → Map V
  put m k v j = if k == j then some v else m j

  abbrev pub delete : Map V → ℕ → Map V
  delete m k j = if k == j then none else m j

  -- `HashMap::retain` on the values.
  abbrev pub retain : (V → Bool) → Map V → Map V
  retain p m k = elim (m k) [ none ↦ none | some v ↦ if p v then some v else none ]
