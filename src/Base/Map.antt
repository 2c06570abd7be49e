-- ===== src/Base/Map.antt =====
-- A Go map keyed by strings that the program never lists: a function with finitely many updates.
use mathlib.Core.Bool.{Bool}
use mathlib.Core.Option.{Option, none, some}
use rook_host.Base.Tests.{if◌then◌else◌}
use rook_host.Base.Bytes.{Bytes, str_eq}

abbrev pub Map {ℓ} : Type ℓ → Type ℓ
Map V = Bytes → Option V

module _ {ℓ} {V : Type ℓ} where
  abbrev pub empty : Map V
  empty k = none

  -- m[k] = v
  abbrev pub insert : Bytes → V → Map V → Map V
  insert k v m j = if str_eq k j then some v else m j

  -- delete(m, k)
  abbrev pub delete : Bytes → Map V → Map V
  delete k m j = if str_eq k j then none else m j

  -- for k, v := range m { if drop(v) { delete(m, k) } }
  abbrev pub sweep : (V → Bool) → Map V → Map V
  sweep drop m j = elim (m j) [ none ↦ none | some v ↦ if drop v then none else some v ]
