-- ===== src/Common/Int.antt =====
-- Go's signed int, where the code tests for a sign. `negsuc n` is -(n + 1).
use Prim.Native.Nat.{ℕ, ◌+◌, ◌-◌}
use mathlib.Core.Bool.{Bool, true, false}
use agentfactory_gateway.Common.Tests.{leb, is_zero, if◌then◌else◌}

pub data ℤ : Type 0 where
  pos : ℕ → ℤ
  negsuc : ℕ → ℤ

-- z <= 0
abbrev pub is_nonpositive : ℤ → Bool
is_nonpositive (pos n) = is_zero n
is_nonpositive (negsuc n) = true

-- z > 0
abbrev pub is_positive : ℤ → Bool
is_positive (pos n) = if is_zero n then false else true
is_positive (negsuc n) = false

-- z == 0
abbrev pub is_zero_int : ℤ → Bool
is_zero_int (pos n) = is_zero n
is_zero_int (negsuc n) = false

-- k - z
abbrev pub sub_from : ℕ → ℤ → ℤ
sub_from k (pos n) = if leb n k then pos (k - n) else negsuc (n - k - 1)
sub_from k (negsuc n) = pos (k + n + 1)

-- n >= z, for a length n
abbrev pub reaches : ℕ → ℤ → Bool
reaches n (pos k) = leb k n
reaches n (negsuc k) = true
