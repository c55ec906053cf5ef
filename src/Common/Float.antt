-- ===== src/Common/Float.antt =====
-- float64, which the sources take from the language: the operations they use, over an unknown type,
-- and what the proofs rely on. The values are those that JSON can write, so NaN is none of them.
use Prim.Native.Nat.{ℕ, ◌≤◌}
use Prim.Native.String.{String}
use mathlib.Core.Path.{◌≡◌}
use mathlib.Core.Bool.{Bool, false}
use agentfactory_gateway.Common.Int.{ℤ, pos}

pub record Float : Type 1 where
  pub Carrier : Type 0
  pub of_nat : ℕ → Carrier
  pub lt : Carrier → Carrier → Bool
  pub add : Carrier → Carrier → Carrier
  pub mul : Carrier → Carrier → Carrier
  pub div : Carrier → Carrier → Carrier
  -- the conversion to int
  pub trunc : Carrier → ℤ
  -- %.0f
  pub show : Carrier → String

pub record IsLawful (F : Float) : Type 0 where
  pub zero_least : F.lt (F.of_nat 1) (F.of_nat 0) ≡ false
  pub lt_irrefl : (x : F.Carrier) → F.lt x x ≡ false
  -- A number of the unit interval, scaled by n and truncated, lies between 0 and n.
  pub trunc-mul :
      (x : F.Carrier) (n : ℕ)
      → F.lt x (F.of_nat 0) ≡ false
      → F.lt (F.of_nat 1) x ≡ false
      → (k : ℕ) × (F.trunc (F.mul x (F.of_nat n)) ≡ pos k) × (k ≤ n)
