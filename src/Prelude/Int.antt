-- ===== src/Prelude/Int.antt =====
-- Integers over the native numbers, for the signed 64-bit results of a subtraction.
use Prim.Native.Nat.{ℕ, ◌-◌}
use spoton.Prelude.Tests.{leb, if◌then◌else◌}

-- `negsuc n` is -(n + 1).
pub data ℤ : Type 0 where
  pos : ℕ → ℤ
  negsuc : ℕ → ℤ

-- a - b, as an integer.
abbrev pub sub_ℕ : ℕ → ℕ → ℤ
sub_ℕ a b = if leb b a then pos (a - b) else negsuc (b - a - 1)

abbrev pub minus : ℤ → ℕ → ℤ
minus (pos n) k = sub_ℕ n k
minus (negsuc n) k = negsuc (Prim.Native.Nat.◌+◌ n k)

-- `x < 0 ? 0 : x`.
abbrev pub floor_zero : ℤ → ℤ
floor_zero (pos n) = pos n
floor_zero (negsuc n) = pos 0
