-- ===== src/Base/Maps.antt =====
-- A dict whose order is never read, as a function.
use mathlib.Core.Bool.{Bool}
use mathlib.Core.Option.{Option, none, some}
use prax_sandbox.Base.Tests.{if◌then◌else◌}
use prax_sandbox.Base.Equality.{Key, ◌==◌}

abbrev pub Map : Type 0 → Type 0 → Type 0
Map K V = K → Option V

-- {k: v for k, v in d.items() if p(v)}
abbrev pub keep_value : {V : Type 0} → (V → Bool) → Option V → Option V
keep_value p none = none
keep_value p (some v) = if p v then some v else none

module _ {K V : Type 0} where
  abbrev pub empty_map : Map K V
  empty_map k = none

  -- d[k] = v and d.pop(k, None)
  abbrev pub update : ⦃e : Key K⦄ → Map K V → K → Option V → Map K V
  update d k v j = if k == j then v else d j

  abbrev pub keep_values : (V → Bool) → Map K V → Map K V
  keep_values p d k = keep_value p (d k)
