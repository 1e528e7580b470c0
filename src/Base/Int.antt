-- ===== src/Base/Int.antt =====
-- Go's signed integers, as far as the program tests and clamps them.
use Prim.Native.Nat.{ℕ}
use mathlib.Core.Bool.{Bool, true}
use veloria.Base.Tests.{ltb}

-- `negsuc n` is -(n + 1).
pub data ℤ : Type 0 where
  pos : ℕ → ℤ
  negsuc : ℕ → ℤ

-- the number, or 0 for a negative one
abbrev pub pos_part : ℤ → ℕ
pos_part (pos n) = n
pos_part (negsuc n) = 0

-- z < n
abbrev pub lt_nat : ℤ → ℕ → Bool
lt_nat (pos m) n = ltb m n
lt_nat (negsuc m) n = true
