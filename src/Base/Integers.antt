-- ===== src/Base/Integers.antt =====
-- Integers that the program only passes on and compares: exit codes.
use Prim.Native.Nat.{ℕ}

-- `negsuc n` is -(n + 1).
pub data ℤ : Type 0 where
  pos : ℕ → ℤ
  negsuc : ℕ → ℤ
