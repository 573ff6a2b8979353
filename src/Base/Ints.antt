-- ===== src/Base/Ints.antt =====
-- The integers over the native numbers, for an `int` of C.
use Prim.Native.Nat.{ℕ}

pub data ℤ : Type 0 where
  pos negsuc : ℕ → ℤ
