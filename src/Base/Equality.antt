-- ===== src/Base/Equality.antt =====
-- Python's `==` on keys, by an instance for each type of key, and `in` on a list.
use mathlib.Core.Path.{◌≡◌}
use mathlib.Core.Logic.{◌↔◌}
use mathlib.Core.Bool.{Bool, true, false, ◌||◌}
use mathlib.Core.List.{List, [], ◌∷◌}
use Prim.Native.Nat.{ℕ}
use native.Mathlib.Omega.{arith}
use prax_sandbox.Base.Tests.{nat_beq, nat_beq_iff}
use prax_sandbox.Base.Lists.{Elem}

-- Values that `__eq__` tells apart exactly where they differ.
pub record Key (K : Type 0) : Type 0 where
  pub equals : K → K → Bool
  pub equals_iff : (j k : K) → (equals j k ≡ true) ↔ (j ≡ k)

infix 50 ◌==◌
abbrev pub ◌==◌ : {K : Type 0} ⦃key : Key K⦄ → K → K → Bool
◌==◌ ⦃key⦄ j k = key.equals j k

instance abbrev pub nat_eq : Key ℕ
nat_eq = record { equals = nat_beq; equals_iff = nat_beq_iff }

module _ {K : Type 0} ⦃key : Key K⦄ where
  -- Python's `k in js`.
  unfoldable pub contains : List K → K → Bool
  contains [] k = false
  contains (j ∷ js) k = j == k || contains js k

  pub contains_iff : (js : List K) (k : K) → (contains js k ≡ true) ↔ Elem k js
  unfolding contains
  contains_iff [] k = ground arith
  contains_iff (j ∷ js) k = ground (arith, contains_iff js k, key.equals_iff j k)
